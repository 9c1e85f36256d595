-- ===== src/Commands/Trust.antt =====
-- Which feeds `update check` of internal/app/command.go reports on.
use authrim_wordwarden.Prelude.{
  ◌≡◌, ◌⊎◌, refl, inl, inr, Bool, true, false, ◌||◌, [], Option, none, some, Text, lit, text_eq,
  text_iff, ◌==◌, is_nil, if◌then◌else◌, eqb_iff, length, arith, Option-cases,
}
use authrim_wordwarden.GoText.{equal_fold}
use authrim_wordwarden.GoUrl.{Url}
use authrim_wordwarden.Secrets.Resolving.{Host}
use authrim_wordwarden.Commands.Feed.{
  AdvisoryFeed, AdvisoryFeedSignature, UpdateCheckResult, FeedTools, UpdateFlags,
  decode_base64_value, is_local_advisory_feed_url, read_advisory_feed, signature_verified,
  signature_trusted, verify_advisory_feed_trust, evaluate_update_feed, on_feed, check_update,
}

-- A signature of the feed without its signature, by the key that the flags trust.
pub record IsSigned (tools : FeedTools) (trusted_key : Text) (feed : AdvisoryFeed) : Type 0 where
  pub attached : AdvisoryFeedSignature
  pub is_attached : feed.signature ≡ some attached
  pub algorithm : equal_fold tools.versions.unicode attached.algorithm (lit "ed25519") ≡ true
  pub key : Text
  pub key_is : decode_base64_value tools trusted_key ≡ some key
  pub key_size : length key ≡ 32
  pub signature : Text
  pub signature_is : decode_base64_value tools attached.signature ≡ some signature
  pub verified :
      tools.ed25519_verify key (tools.marshal (record feed { signature = none })) signature ≡ true

-- A file of this host that may be unsigned because the flags say so.
pub record IsLocalUnsigned (tools : FeedTools) (flags : UpdateFlags) : Type 0 where
  pub allowed : flags.allow_unsigned_feed ≡ true
  pub url : Url
  pub parsed : tools.urls.parse flags.feed_url ≡ some url
  pub in_files : (url.scheme ≡ []) ⊎ (url.scheme ≡ lit "file")

module _ (tools : FeedTools) where
  signature_verified-cases :
      (feed : AdvisoryFeed) (key signature : Option Text)
      → signature_verified tools feed key signature ≡ true
      → (k : Text) × (s : Text) × (key ≡ some k)
        × (signature ≡ some s)
        × (length k ≡ 32)
        × (tools.ed25519_verify k (tools.marshal (record feed { signature = none })) s ≡ true)
  unfolding signature_verified
  signature_verified-cases feed none signature h = absurd (cc h)
  signature_verified-cases feed (some k) none h = absurd (cc h)
  signature_verified-cases feed (some k) (some s) h =
      (k, s, refl, refl, ground (arith, eqb_iff (length k) 32), ground arith)

  signature_trusted-IsSigned :
      (feed : AdvisoryFeed) (trusted_key : Text) (signature : Option AdvisoryFeedSignature)
      → feed.signature ≡ signature
      → signature_trusted tools feed trusted_key signature ≡ true
      → IsSigned tools trusted_key feed
  unfolding signature_trusted
  signature_trusted-IsSigned feed trusted_key none e h = absurd (cc h)
  signature_trusted-IsSigned feed trusted_key (some attached) e h =
      let (key, signature, key_is, signature_is, size, verified) =
        signature_verified-cases feed (decode_base64_value tools trusted_key)
          (decode_base64_value tools attached.signature) (ground arith) in
      record {
        attached = attached;
        is_attached = e;
        algorithm = ground arith;
        key = key;
        key_is = key_is;
        key_size = size;
        signature = signature;
        signature_is = signature_is;
        verified = verified;
      }

  trust-IsSigned :
      (feed : AdvisoryFeed) (trusted_key : Text) (allowed : Bool)
      → verify_advisory_feed_trust tools feed trusted_key allowed ≡ true
      → (allowed ≡ true) ⊎ IsSigned tools trusted_key feed
  unfolding verify_advisory_feed_trust
  trust-IsSigned feed trusted_key true h = inl refl
  trust-IsSigned feed trusted_key false h =
      inr (signature_trusted-IsSigned feed trusted_key feed.signature refl (ground arith))

  local_lem :
      (flags : UpdateFlags)
      → flags.allow_unsigned_feed ≡ true
      → is_local_advisory_feed_url tools flags.feed_url ≡ true
      → IsLocalUnsigned tools flags
  unfolding is_local_advisory_feed_url
  local_lem flags allowed h = elim (Option-cases (tools.urls.parse flags.feed_url)) [
    | inl bad ↦ absurd (cc (rw (bad, is_local_advisory_feed_url) at h))
    | inr (url, good) ↦ record {
      allowed = allowed;
      url = url;
      parsed = good;
      in_files = in_files url (rw (good, is_local_advisory_feed_url) at h);
    }
  ]
    where
      in_files :
          (url : Url)
          → (is_nil url.scheme || url.scheme == lit "file") ≡ true
          → (url.scheme ≡ []) ⊎ (url.scheme ≡ lit "file")
      in_files url h = ground (arith, text_iff url.scheme (lit "file"))

  -- What `update check` reports is evaluated from a feed that was read from the URL that is given,
  -- whose channel is the one asked for where both name one, and that either is signed by the trusted
  -- key, as the feed without its signature, or is a file of this host and the flags permit that it
  -- is unsigned. So a feed from the network is never used without a signature.
  pub check_update-IsSigned :
      (host : Host) (version : Text) (flags : UpdateFlags) (result : UpdateCheckResult)
      → check_update tools host version flags ≡ some result
      → (feed : AdvisoryFeed) × (read_advisory_feed tools host flags.feed_url ≡ some feed)
        × (result
            ≡ evaluate_update_feed tools feed
                (if is_nil flags.current_version then version else flags.current_version))
        × ((flags.channel ≡ []) ⊎ ((feed.channel ≡ []) ⊎ (flags.channel ≡ feed.channel)))
        × (IsLocalUnsigned tools flags ⊎ IsSigned tools flags.trusted_feed_key feed)
  unfolding check_update on_feed
  check_update-IsSigned host version flags result h =
      elim (Option-cases (read_advisory_feed tools host flags.feed_url)) [
        | inl bad ↦ absurd (ground (arith, bad))
        | inr (feed, read) ↦ (
          feed,
          read,
          ground (arith, read),
          ground (arith, read, text_iff flags.channel feed.channel),
          elim (trust-IsSigned feed flags.trusted_feed_key flags.allow_unsigned_feed
              (ground (arith, read))) [
                | inl allowed ↦ inl (local_lem flags allowed (ground (arith, read)))
                | inr signed ↦ inr signed
              ],
        )
      ]
