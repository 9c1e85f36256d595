-- ===== src/Tests/Service.antt =====
-- A connector with one tenant and a signed request, and the theorems of the handler of
-- internal/ports/httpapi/server.go and of internal/adapters/hmac/verifier.go at them.
use authrim_wordwarden.Prelude.{
  contains, ◌≡◌, ◌≢◌, ◌≤◌, suc, refl, true, false, List, [], ◌∷◌, Option, some, Text, lit, text_beq,
  pos, lookup, length, insert,
}
use authrim_wordwarden.GoTime.{Time, add, sub, abs}
use authrim_wordwarden.GoText.{
  Unicode, is_ascii, is_space, drop_spaces, drop_spaces_right, to_lower, trim_space, lower_byte,
  upper_byte, fields, words_from, contains_byte,
}
use authrim_wordwarden.GoText.Splitting.{split, join}
use authrim_wordwarden.GoText.Sorting.{sort_texts, insert_text, text_le, IsSorted}
use authrim_wordwarden.GoText.Escaping.{hex, query_escape, canonical_header_key}
use authrim_wordwarden.Directory
use authrim_wordwarden.Hmac.Request.{Request, whole, header_values, header_get, read_all}
use authrim_wordwarden.Hmac.Headers.{
  single_header_value, add_name, parse_signed_headers, required_headers,
}
use authrim_wordwarden.Hmac.Canonical.{
  Crypto, canonical_request, canonical_query, header_lines, header_line, canonical_headers,
  sign_canonical,
}
use authrim_wordwarden.Hmac.Verifier.{
  KeySet, VerificationResult, lookup_key, new_verifier, verify_body, verify,
}
use authrim_wordwarden.Directory.{
  Answer, answered, successful_verification, credential_result, is_success, safe_reason,
}
use authrim_wordwarden.Hmac.Soundness.{verify_iff, Authentic}
use authrim_wordwarden.Prelude.{IsDistinct}
use authrim_wordwarden.Hmac.Names.{parse_signed_headers_lem, named}
use authrim_wordwarden.Storm.{
  StormProtectionPolicy, new_connector_storms, default_storm_protection_policy, state_of, blocked,
  reset,
}
use authrim_wordwarden.Replay.{new_replay_cache, remember, replay_key, sweep}
use authrim_wordwarden.Http.Messages.{
  VerifyPasswordRequest, VerifyPasswordResponse, valid_verify_password_request, username_hash,
  group_fact_responses,
}
use authrim_wordwarden.Http.State.{
  Env, TenantRuntime, Handler, new_handler, emit, acquire, release, storm_blocked, reset_storm,
}
use authrim_wordwarden.Http.Metrics.{
  metric_key, metric_key_beq, metric_label, increment, record_metric,
}
use authrim_wordwarden.Http.Handler.{
  Pending, Outcome, replied, calling, admit, with_runtime, authenticated, remembered, with_slot,
  check_request, identifiers_agree, directory_request,
}
use authrim_wordwarden.Http.Completion.{complete, serve, verdict_event, confirmation}
use authrim_wordwarden.Http.Concurrency.{System, let_in, in_flight_of}
use authrim_wordwarden.Http.Bounded.{Run, start, later, initial, concurrency_bounded}
use authrim_wordwarden.Http.Keeps.{one_event}
use authrim_wordwarden.Http.Success.{Proven, success_sound}
use authrim_wordwarden.Http.Retention.{at_once}
use authrim_wordwarden.Http.Replays.{no_replay}

abbrev unicode : Unicode
unicode = record {
  wide_lower = λ s. s;
  wide_trim = λ s. s;
  wide_fields = λ s. s ∷ [];
  wide_fold = text_beq;
}

-- Stand-ins for the hash functions.
abbrev crypto : Crypto
crypto = record { sha256 = λ s. length s ∷ []; hmac_sha256 = λ secret s. length s ∷ secret }

abbrev parse_time : Text → Option Time
parse_time s = some 600000000000

abbrev keys : KeySet
keys = record {
  active = record { kid = lit "k2"; secret = lit "new" };
  previous = some (record { kid = lit "k1"; secret = lit "old" });
}

abbrev request : Request
request = record {
  method = lit "POST";
  escaped_path = lit "/v1/verify-password";
  query = [];
  headers =
      (lit "X-Authrim-Connector-Id", lit "c1" ∷ [])
      ∷ (lit "Content-Type", lit "application/json" ∷ [])
      ∷ (lit "X-Authrim-Key-Id", lit "k1" ∷ [])
      ∷ (lit "X-Authrim-Request-Id", lit "r1" ∷ [])
      ∷ (lit "X-Authrim-Timestamp", lit "t" ∷ [])
      ∷ (lit "X-Authrim-Nonce", lit "n1" ∷ [])
      ∷ (
        lit "X-Authrim-Signed-Headers",
        lit
              "content-type;X-Authrim-Connector-Id;x-authrim-key-id;x-authrim-request-id;x-authrim-timestamp;x-authrim-nonce"
            ∷ [],
      )
      ∷ (lit "X-Authrim-Signature", lit "306f6c64" ∷ [])
      ∷ [];
  body = whole (lit "{}");
}

abbrev verification : VerificationResult
verification = record {
  connector_id = lit "c1";
  key_id = lit "k1";
  request_id = lit "r1";
  timestamp = 600000000000;
  nonce = lit "n1";
}

-- What a run of the verifier computes with.
run_verifier : Unit {0}
unfolding lit text_beq lookup insert add sub abs is_ascii is_space drop_spaces drop_spaces_right
    to_lower trim_space lower_byte upper_byte fields words_from contains_byte split join sort_texts
    insert_text text_le hex query_escape canonical_header_key header_values header_get read_all
    single_header_value contains add_name parse_signed_headers required_headers canonical_request
    canonical_query header_lines header_line canonical_headers sign_canonical lookup_key
    new_verifier verify_body verify
run_verifier = tt

verify_iff_example :
    Authentic unicode crypto parse_time keys 600000000000 request (lit "{}") verification
unfolding run_verifier
verify_iff_example =
    (verify_iff unicode crypto parse_time keys 600000000000 request (lit "{}") verification).0 refl

parse_signed_headers_lem_example :
    IsSorted (parse_signed_headers unicode (lit "b;A; b"))
    × IsDistinct (parse_signed_headers unicode (lit "b;A; b"))
    × (contains [] (parse_signed_headers unicode (lit "b;A; b")) ≡ false)
    × ((name : Text)
        → name ≢ []
        → contains name (parse_signed_headers unicode (lit "b;A; b"))
          ≡ named unicode name (split b';' (lit "b;A; b")))
parse_signed_headers_lem_example = parse_signed_headers_lem unicode (lit "b;A; b")

abbrev password_request : VerifyPasswordRequest
password_request = record {
  request_id = lit "r1";
  tenant_id = lit "t1";
  connector_id = lit "c1";
  username = lit "ann";
  password = lit "pw";
  attribute_names = [];
}

abbrev env : Env
env = record {
  unicode = unicode;
  crypto = crypto;
  parse_rfc3339 = parse_time;
  decode_request = λ s. some password_request;
}

abbrev policy : StormProtectionPolicy
policy = record {
  window_ms = pos 10000;
  block_ms = pos 30000;
  malformed_request_limit = pos 20;
  replay_limit = pos 10;
  directory_error_limit = pos 5;
}

abbrev tenants : List (Text × TenantRuntime)
tenants =
    (
      lit "c1",
      record {
        tenant_id = lit "t1";
        connector_id = lit "c1";
        keys = keys;
        audit_hash_secret = [];
        concurrency_limit = pos 2;
        request_timeout_ms = pos 1000;
        storm_protection = policy;
      },
    )
    ∷ []

-- What a run of the handler computes with.
run_handler : Unit {0}
unfolding run_verifier new_handler new_connector_storms default_storm_protection_policy state_of
    blocked reset new_replay_cache remember replay_key sweep valid_verify_password_request
    username_hash group_fact_responses emit acquire release storm_blocked reset_storm metric_key
    metric_key_beq metric_label increment record_metric admit with_runtime authenticated remembered
    with_slot check_request identifiers_agree directory_request complete serve verdict_event
    confirmation successful_verification credential_result is_success safe_reason
run_handler = tt

abbrev handler : Handler
handler = new_handler (lit "1.0") tenants true

abbrev handler_of : Outcome → Handler
handler_of (replied h reply) = h
handler_of (calling h p) = h

abbrev pending : Pending
pending = record {
  runtime = record {
    tenant_id = lit "t1";
    connector_id = lit "c1";
    keys = keys;
    audit_hash_secret = [];
    concurrency_limit = pos 2;
    request_timeout_ms = pos 1000;
    storm_protection = policy;
  };
  connector_id = lit "c1";
  verification = verification;
  request = password_request;
}

abbrev admitted_handler : Handler
admitted_handler = handler_of (admit env handler 600000000000 request)

admitted : admit env handler 600000000000 request ≡ calling admitted_handler pending
unfolding run_handler
admitted = refl

abbrev system : System
system = record { handler = admitted_handler; in_flight = pending ∷ [] }

abbrev run : Run env (initial (lit "1.0") tenants true) system
run = later 600000000000 start (let_in request admitted_handler pending admitted)

concurrency_bounded_example :
    (1 ≡ in_flight_of (lit "c1") (pending ∷ [])) × (in_flight_of (lit "c1") (pending ∷ []) ≤ 2)
unfolding run_handler
concurrency_bounded_example =
    concurrency_bounded env (lit "1.0") tenants true system (lit "c1")
      (record { capacity = 2; used = 1 }) run refl

-- The same request, a second later.
no_replay_example :
    admit env admitted_handler 601000000000 request ≢ calling admitted_handler pending
no_replay_example =
    no_replay env (lit "1.0") tenants true (initial (lit "1.0") tenants true) system 600000000000
      601000000000 request request admitted_handler admitted_handler pending pending start admitted
      at_once refl refl

abbrev directory : Directory.VerifyPasswordRequest → Answer
directory r =
    answered
      (successful_verification (record { directory_id = lit "d1"; username = r.username }) [] [])

abbrev response : VerifyPasswordResponse
response =
    confirmation env pending
      (successful_verification (record { directory_id = lit "d1"; username = lit "ann" }) [] [])

success_sound_example : Proven env handler 600000000000 request directory 200 response
unfolding run_handler
success_sound_example =
    success_sound env handler 600000000000 request 600000000000 directory 200 response refl refl

one_event_example :
    length (serve env handler 600000000000 request 600000000000 directory).0.audit ≡ suc 0
unfolding new_handler
one_event_example = one_event env handler 600000000000 request 600000000000 directory
