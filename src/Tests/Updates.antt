-- ===== src/Tests/Updates.antt =====
-- The theorems on the update feed, heartbeats and identities, at concrete inputs.
use mathlib.Core.List.{perm_append_comm}
use mathlib.Core.List.Perm as Reorder
use authrim_wordwarden.Prelude.{
  ◌≡◌, ◌⊎◌, refl, true, false, [], ◌∷◌, none, some, Text, lit, text_beq, pos, is_nil, if◌then◌else◌,
  arith,
}
use authrim_wordwarden.GoText.{
  is_ascii, is_space, lower_byte, drop_spaces, drop_spaces_right, trim_space, equal_fold,
}
use authrim_wordwarden.GoText.Encoding.{has_prefix, base64_raw_url}
use authrim_wordwarden.Config.{TenantConfig}
use authrim_wordwarden.Heartbeat.{ldap_urls, config_fingerprint}
use authrim_wordwarden.Heartbeat.Fingerprint.{config_fingerprint-IsReordered}
use authrim_wordwarden.Instance.{
  instance_id_matches, generate_instance_id, store, on_read, load_or_create_instance_id,
}
use authrim_wordwarden.Instance.Stable.{load_or_create_instance_id_again}
use authrim_wordwarden.Commands.Feed.{
  AdvisoryFeed, FeedTools, UpdateFlags, first_decoded, take_bytes, decode_base64_value,
  response_body, feed_bytes, read_advisory_feed, signature_verified, signature_trusted,
  verify_advisory_feed_trust, evaluate_update_feed, on_feed, check_update,
}
use authrim_wordwarden.Commands.Trust.{IsSigned, IsLocalUnsigned, check_update-IsSigned}
use authrim_wordwarden.Tests.Names.{unicode}
use authrim_wordwarden.Tests.Samples.{urls, host, crypto, codec, tenant, directory, bytes, id, kept}

abbrev key : Text
key = lit "0123456789abcdef0123456789abcdef"

abbrev feed : AdvisoryFeed
feed = record {
  channel = lit "stable";
  latest_version = lit "v2.0.0";
  release_url = lit "https://r";
  advisories = [];
  signature = some (record { algorithm = lit "Ed25519"; key_id = []; signature = lit "c2ln" });
}

-- Every text decodes to itself, and every signature verifies.
abbrev tools : FeedTools
tools = record {
  versions = record { unicode = unicode; wide_scan = λ s. pos 0 };
  urls = urls;
  decoders = (λ s. none) ∷ (λ s. some s) ∷ [];
  ed25519_verify = λ k payload s. true;
  marshal = λ f. f.channel;
  unmarshal = λ s. some feed;
  get = λ url. some (200, lit "feed");
}

abbrev flags : UpdateFlags
flags = record {
  feed_url = lit "https://f/feed";
  current_version = [];
  channel = lit "stable";
  trusted_feed_key = key;
  allow_unsigned_feed = false;
}

check_update-IsSigned_example :
    (f : AdvisoryFeed) × (read_advisory_feed tools host flags.feed_url ≡ some f)
    × (evaluate_update_feed tools feed (lit "1.0.0")
        ≡ evaluate_update_feed tools f
            (if is_nil flags.current_version then lit "1.0.0" else flags.current_version))
    × ((flags.channel ≡ []) ⊎ ((f.channel ≡ []) ⊎ (flags.channel ≡ f.channel)))
    × (IsLocalUnsigned tools flags ⊎ IsSigned tools flags.trusted_feed_key f)
unfolding check_update on_feed read_advisory_feed feed_bytes response_body take_bytes
    verify_advisory_feed_trust signature_trusted signature_verified decode_base64_value
    first_decoded equal_fold lower_byte trim_space drop_spaces drop_spaces_right is_space is_ascii
    has_prefix lit text_beq
check_update-IsSigned_example =
    check_update-IsSigned tools host (lit "1.0.0") flags
      (evaluate_update_feed tools feed (lit "1.0.0")) refl

-- Other secrets, and the attributes in another order.
abbrev changed : TenantConfig
changed = record tenant {
  authrim = record tenant.authrim { audit_hash_secret_ref = lit "env:OTHER" };
  ldap = record tenant.ldap { attributes = lit "cn" ∷ lit "mail" ∷ []; bind_dn = lit "cn=b" };
}

config_fingerprint-IsReordered_example :
    config_fingerprint codec crypto tenant ≡ config_fingerprint codec crypto changed
unfolding lit ldap_urls
config_fingerprint-IsReordered_example =
    config_fingerprint-IsReordered codec crypto tenant changed (record {
      tenant_id = refl;
      connector_id = refl;
      endpoints = refl;
      schemes = Reorder.refl _;
      verify = refl;
      start_tls = refl;
      lookup_mode = refl;
      profile_name = refl;
      subject = refl;
      identifiers = Reorder.refl _;
      strategy = refl;
      normalization = refl;
      paged = refl;
      page_size = refl;
      attributes = perm_append_comm (lit "mail" ∷ []) (lit "cn" ∷ []);
      formats = Reorder.refl _;
      domains = Reorder.refl _;
      suffixes = Reorder.refl _;
      groups = refl;
      referrals = refl;
      timeouts = refl;
      protection = refl;
      relay = refl;
      transport = refl;
      interval = refl;
      timeout = refl;
    })

load_or_create_instance_id_again_example :
    (instance_id_matches id ≡ true)
    × (load_or_create_instance_id unicode (lit "state") none kept ≡ (some id, kept))
unfolding load_or_create_instance_id on_read store generate_instance_id base64_raw_url trim_space
    drop_spaces drop_spaces_right is_space is_ascii lit
load_or_create_instance_id_again_example =
    load_or_create_instance_id_again unicode (lit "state") (some bytes) none directory kept id
      (omega arith) refl
