-- ===== src/Tests/Relay.antt =====
-- The theorems on the relay's client, at concrete inputs.
use authrim_wordwarden.Prelude.{
  ◌≡◌, refl, true, [], none, some, lit, lookup, text_beq, pos, arith, min, ◌*◌, ◌^◌,
}
use authrim_wordwarden.GoUrl.{Url, UrlParser, is_local, drop_slashes, drop_slashes_right}
use authrim_wordwarden.GoText.Splitting.{split, join}
use authrim_wordwarden.Storm.{
  StormProtectionPolicy, new_connector_storms, default_storm_protection_policy, blocked, state_of,
  reset, put_state,
}
use authrim_wordwarden.Replay.{new_replay_cache, remember, sweep}
use authrim_wordwarden.Hmac.Canonical.{Crypto}
use authrim_wordwarden.Directory
use authrim_wordwarden.Directory.{
  Answer, answered, VerifyPasswordResult, successful_verification, first_facts, credential_result,
}
use authrim_wordwarden.Relay.Messages.{
  VerifyRequestMessage, envelope_of, is_verify_request, relay_protocol_compatible,
  group_fact_messages,
}
use authrim_wordwarden.Relay.Address.{
  relay_url_allowed, parse_relay_url, last_six_bind, validate_relay_url_binding,
}
use authrim_wordwarden.Relay.Binding.{IsBound, validate_relay_url_binding_iff}
use authrim_wordwarden.Relay.State.{
  RelayOptions, RelayClient, backoff_at, take_limit, free_limit, emit_event, relay_storm_blocked,
  reset_relay_storm,
}
use authrim_wordwarden.Relay.Waiting.{backoff_at_lem}
use authrim_wordwarden.Relay.Login.{
  Formats, AuthCanonicalInput, auth_canonical, lines_of, split-auth_canonical,
}
use authrim_wordwarden.Relay.Verification.{
  valid_verify_request, relay_replay_key, receive_limited, receive_remembered, receive, response_to,
  success_response, conclude, process_verify_request,
}
use authrim_wordwarden.Relay.Service.{
  IsAudited, IsGranted, process_verify_request-IsAudited, process_verify_request-IsGranted,
}

abbrev crypto : Crypto
crypto = record { sha256 = λ s. s; hmac_sha256 = λ secret s. s }

abbrev policy : StormProtectionPolicy
policy = record {
  window_ms = pos 0;
  block_ms = pos 0;
  malformed_request_limit = pos 0;
  replay_limit = pos 0;
  directory_error_limit = pos 0;
}

abbrev options : RelayOptions
options = record {
  url = lit "wss://r/api/auth/directory-relay/connect/t/c/";
  tenant_id = lit "t";
  connector_id = lit "c";
  instance_id = lit "i";
  display_name = [];
  version = lit "1";
  started_at = some 5;
  config_fingerprint = [];
  config_categories = [];
  key_id = lit "k";
  secret = lit "s";
  audit_hash_secret = [];
  protection = policy;
  request_timeout = pos 2500000000;
  concurrency = pos 8;
  reconnect_min = pos 1000;
  reconnect_max = pos 30000;
}

abbrev client : RelayClient
client = record {
  config = options;
  used = 0;
  replay = new_replay_cache (pos 300000000000);
  storms = new_connector_storms policy;
  audit = [];
}

abbrev message : VerifyRequestMessage
message = record {
  envelope = envelope_of (lit "verify.request");
  id = lit "1";
  request_id = lit "r";
  tenant_id = lit "t";
  connector_id = lit "c";
  username = lit "ann";
  password = lit "pw";
  attribute_names = [];
}

abbrev verdict : VerifyPasswordResult
verdict = successful_verification (record { directory_id = lit "d"; username = lit "ann" }) [] []

abbrev directory : Directory.VerifyPasswordRequest → Answer
directory request = answered verdict

process_verify_request-IsAudited_example :
    IsAudited client message (process_verify_request crypto client 5 message 6 directory).0
process_verify_request-IsAudited_example =
    process_verify_request-IsAudited crypto client 5 message 6 directory

process_verify_request-IsGranted_example :
    IsGranted crypto client 5 message directory (success_response crypto message verdict)
unfolding process_verify_request receive receive_remembered receive_limited conclude response_to
    success_response valid_verify_request is_verify_request relay_protocol_compatible
    relay_replay_key take_limit free_limit relay_storm_blocked blocked state_of reset put_state
    reset_relay_storm emit_event new_connector_storms default_storm_protection_policy
    new_replay_cache remember sweep successful_verification first_facts credential_result
    group_fact_messages lookup lit text_beq
process_verify_request-IsGranted_example =
    process_verify_request-IsGranted crypto client 5 message 6 directory
      (success_response crypto message verdict) refl refl

backoff_at_lem_example : backoff_at options 5 ≡ pos (min (1000 * 2 ^ 5) 30000)
backoff_at_lem_example = backoff_at_lem options 1000 30000 5 refl refl (omega arith) (omega arith)

abbrev formats : Formats
formats = record {
  parse_rfc3339 = λ s. none;
  format_rfc3339 = λ t. lit "2026-01-01T00:00:00Z";
  format_int = λ n. lit "1";
}

abbrev canonical : AuthCanonicalInput
canonical = record {
  tenant_id = lit "t";
  connector_id = lit "c";
  key_id = lit "k";
  protocol_version = pos 1;
  min_supported_version = pos 1;
  challenge_id = lit "x";
  nonce = lit "n";
  timestamp = lit "z";
}

split-auth_canonical_example :
    split b'\n' (auth_canonical formats canonical) ≡ lines_of formats canonical
unfolding lit
split-auth_canonical_example = split-auth_canonical formats canonical (ground arith)

-- It gives one URL for every text, and nothing is escaped.
abbrev urls : UrlParser
urls = record {
  parse = λ s. some (record {
    scheme = lit "wss";
    host = lit "r";
    hostname = lit "r";
    path = lit "/api/auth/directory-relay/connect/t/c/";
    escaped_path = lit "/api/auth/directory-relay/connect/t/c/";
  });
  path_unescape = λ s. some s;
}

validate_relay_url_binding_iff_example :
    (url : Url) × (urls.parse (lit "wss://r") ≡ some url)
    × (relay_url_allowed url ≡ true)
    × IsBound urls
        (lit "t")
        (lit "c")
        (split b'/' (drop_slashes_right (drop_slashes url.escaped_path)))
unfolding validate_relay_url_binding parse_relay_url relay_url_allowed is_local drop_slashes
    drop_slashes_right last_six_bind split join lit text_beq
validate_relay_url_binding_iff_example =
    (validate_relay_url_binding_iff urls (lit "t") (lit "c") (lit "wss://r")).0 refl
