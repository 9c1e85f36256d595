-- ===== src/Commands/Feed.antt =====
-- The command `update check` of internal/app/command.go, up to what it prints.
use authrim_wordwarden.Prelude.{
  ℕ, zero, suc, Bool, true, false, not, ◌&&◌, ◌||◌, List, [], ◌∷◌, Option, none, some, Text, lit,
  text_eq, ◌==◌, is_nil, if◌then◌else◌, eqb, leb, ltb, length, keep_if,
}
use authrim_wordwarden.GoText.{trim_space, equal_fold}
use authrim_wordwarden.GoUrl.{Url, UrlParser}
use authrim_wordwarden.Secrets.Resolving.{Host}
use authrim_wordwarden.Commands.Versions.{VersionTools, normalize_version, any_matches}

pub record ReleaseAdvisory : Type 0 where
  pub advisory_id : Text
  pub affected_versions : List Text
  pub fixed_version : Text
  pub severity : Text
  pub summary : Text
  pub published_at : Text
  pub updated_at : Text
  pub release_url : Text

pub record AdvisoryFeedSignature : Type 0 where
  pub algorithm : Text
  pub key_id : Text
  pub signature : Text

pub record AdvisoryFeed : Type 0 where
  pub channel : Text
  pub latest_version : Text
  pub release_url : Text
  pub advisories : List ReleaseAdvisory
  pub signature : Option AdvisoryFeedSignature

pub record UpdateCheckResult : Type 0 where
  pub current_version : Text
  pub latest_version : Text
  pub release_url : Text
  pub update_available : Bool
  pub affected_advisories : List ReleaseAdvisory

-- What the command uses of Go's libraries: versions, URLs, the four decoders of encoding/base64 in
-- their order, `ed25519.Verify` of a key, a payload and a signature, JSON (the payload's `Marshal`
-- does not fail on these records), and the HTTP call, whose `none` is an error. Its
-- body is what was read of it: an error of that read is dropped, since it is stored in a variable
-- that the block declares anew.
pub record FeedTools : Type 0 where
  pub versions : VersionTools
  pub urls : UrlParser
  pub decoders : List (Text → Option Text)
  pub ed25519_verify : Text → Text → Text → Bool
  pub marshal : AdvisoryFeed → Text
  pub unmarshal : Text → Option AdvisoryFeed
  pub get : Text → Option (ℕ × Text)

-- The flags of the command.
pub record UpdateFlags : Type 0 where
  pub feed_url : Text
  pub current_version : Text
  pub channel : Text
  pub trusted_feed_key : Text
  pub allow_unsigned_feed : Bool

unfoldable pub first_decoded : List (Text → Option Text) → Text → Option Text
first_decoded [] value = none
first_decoded (decode ∷ decoders) value = elim (decode value) [
  | some bytes ↦ some bytes
  | none ↦ first_decoded decoders value
]

unfoldable pub take_bytes : ℕ → Text → Text
take_bytes zero s = []
take_bytes (suc n) [] = []
take_bytes (suc n) (c ∷ s) = c ∷ take_bytes n s

-- 1 << 20
abbrev pub feed_limit : ℕ
feed_limit = 1048576

module _ (tools : FeedTools) where
  unfoldable pub decode_base64_value : Text → Option Text
  decode_base64_value value = first_decoded tools.decoders (trim_space tools.versions.unicode value)

  unfoldable pub is_local_advisory_feed_url : Text → Bool
  is_local_advisory_feed_url raw = elim (tools.urls.parse raw) [
    | none ↦ false
    | some url ↦ is_nil url.scheme || url.scheme == lit "file"
  ]

  -- The answer to the HTTP call.
  unfoldable pub response_body : Option (ℕ × Text) → Option Text
  response_body none = none
  response_body (some (status, body)) =
      if ltb status 200 || leb 300 status then none else some (take_bytes feed_limit body)

  -- The bytes of the feed, by its URL's scheme.
  unfoldable pub feed_bytes : Host → Text → Option Url → Option Text
  feed_bytes host raw none = host.read_file raw
  feed_bytes host raw (some url) =
      if url.scheme == lit "file"
      then host.read_file url.path
      else if url.scheme == lit "https"
      then response_body (tools.get raw)
      else if not (is_nil url.scheme)
      then none
      else host.read_file raw

  unfoldable pub read_advisory_feed : Host → Text → Option AdvisoryFeed
  read_advisory_feed host raw = elim (feed_bytes host raw (tools.urls.parse raw)) [
    | none ↦ none
    | some bytes ↦ tools.unmarshal bytes
  ]

  -- Behind the decoding of key and signature.
  unfoldable pub signature_verified : AdvisoryFeed → Option Text → Option Text → Bool
  signature_verified feed none signature = false
  signature_verified feed (some key) none = false
  signature_verified feed (some key) (some signature) =
      eqb (length key) 32
      && tools.ed25519_verify key (tools.marshal (record feed { signature = none })) signature

  -- A signature of a feed, against the key that is trusted.
  unfoldable pub signature_trusted : AdvisoryFeed → Text → Option AdvisoryFeedSignature → Bool
  signature_trusted feed trusted_key none = false
  signature_trusted feed trusted_key (some s) =
      equal_fold tools.versions.unicode s.algorithm (lit "ed25519")
      && signature_verified feed (decode_base64_value trusted_key) (decode_base64_value s.signature)

  -- `verifyAdvisoryFeedTrust`; an error is false.
  unfoldable pub verify_advisory_feed_trust : AdvisoryFeed → Text → Bool → Bool
  verify_advisory_feed_trust feed trusted_key allow_unsigned =
      if allow_unsigned
      then true
      else if is_nil (trim_space tools.versions.unicode trusted_key)
      then false
      else signature_trusted feed trusted_key feed.signature

  unfoldable pub advisory_affects_version : ReleaseAdvisory → Text → Bool
  advisory_affects_version advisory current =
      any_matches tools.versions advisory.affected_versions
        (normalize_version tools.versions current)

  unfoldable pub evaluate_update_feed : AdvisoryFeed → Text → UpdateCheckResult
  evaluate_update_feed feed current = record {
    current_version = current;
    latest_version = feed.latest_version;
    release_url = feed.release_url;
    update_available =
        not (is_nil (normalize_version tools.versions feed.latest_version))
        && not (
            normalize_version tools.versions feed.latest_version
            == normalize_version tools.versions current);
    affected_advisories = keep_if (λ a. advisory_affects_version a current) feed.advisories;
  }

  -- Behind the read of the feed; `version` is that of the program.
  unfoldable pub on_feed : UpdateFlags → Text → AdvisoryFeed → Option UpdateCheckResult
  on_feed flags version feed =
      if not (verify_advisory_feed_trust feed flags.trusted_feed_key flags.allow_unsigned_feed)
      then none
      else if not (is_nil flags.channel)
          && (not (is_nil feed.channel) && not (flags.channel == feed.channel))
      then none
      else some (
          evaluate_update_feed feed
            (if is_nil flags.current_version then version else flags.current_version))

  -- `update check`; an error is `none`.
  unfoldable pub check_update : Host → Text → UpdateFlags → Option UpdateCheckResult
  check_update host version flags =
      if is_nil flags.feed_url
      then none
      else if flags.allow_unsigned_feed && not (is_local_advisory_feed_url flags.feed_url)
      then none
      else elim (read_advisory_feed host flags.feed_url) [
        | none ↦ none
        | some feed ↦ on_feed flags version feed
      ]
