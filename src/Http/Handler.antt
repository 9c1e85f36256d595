-- ===== src/Http/Handler.antt =====
-- The method `verifyPassword` of internal/ports/httpapi/server.go, in two steps: `admit`, up to the
-- call of the directory client, and `complete`, from its answer on. Each step reads the clock once.
-- The slot that `acquire` takes is held between the steps and released by the deferred call.
use authrim_wordwarden.Prelude.{
  ℕ, Bool, true, false, not, ◌&&◌, [], Option, none, some, Text, lit, text_eq, ◌==◌, if◌then◌else◌,
  lookup,
}
use authrim_wordwarden.GoTime.{Time}
use authrim_wordwarden.Audit.{Event, event_verify_error, event_hmac_failure, event_replay_detected}
use authrim_wordwarden.Directory
use authrim_wordwarden.Directory.{
  Answer, answered, failed, VerifyPasswordResult, result_success, result_source_unavailable,
  credential_result, safe_reason,
}
use authrim_wordwarden.Storm.{malformed, replay, directory_error}
use authrim_wordwarden.Replay.{remember, replay_key}
use authrim_wordwarden.Hmac.Request.{Request, Result, ok, err, body_too_large, header_get}
use authrim_wordwarden.Hmac.Headers.{header_connector_id}
use authrim_wordwarden.Hmac.Verifier.{VerificationResult, new_verifier, verify}
use authrim_wordwarden.Http.Metrics.{unknown_metric_label}
use authrim_wordwarden.Http.Messages.{
  VerifyPasswordRequest, Reply, error_reply, valid_verify_password_request, hmac_error_code,
  username_hash,
}
use authrim_wordwarden.Http.State.{
  Env, TenantRuntime, Handler, emit, acquire, release, storm_blocked, record_storm,
}

abbrev pub max_verify_password_body_bytes : ℕ
max_verify_password_body_bytes = 65536

-- The locals that live across the call of the directory client.
pub record Pending : Type 0 where
  pub runtime : TenantRuntime
  pub connector_id : Text
  pub verification : VerificationResult
  pub request : VerifyPasswordRequest

-- A request is answered, or waits for the directory.
pub data Outcome : Type 0 where
  replied : Handler → Reply → Outcome
  calling : Handler → Pending → Outcome

-- An event with the result "error".
unfoldable pub error_event : Text → Text → Text → Text → Text → Text → Bool → Text → Event
error_event event_type tenant_id connector_id request_id key_id error_code retryable hash = record {
  event_type = event_type;
  tenant_id = tenant_id;
  connector_id = connector_id;
  request_id = request_id;
  key_id = key_id;
  result = lit "error";
  reason = [];
  error_code = error_code;
  retryable = retryable;
  directory_status = [];
  username_hash = hash;
}

unfoldable pub write_error : ℕ → Text → Text → Text → Text → Bool → Reply
write_error status request_id tenant_id connector_id code retryable = error_reply status (record {
  request_id = request_id;
  tenant_id = tenant_id;
  connector_id = connector_id;
  code = code;
  retryable = retryable;
})

-- The request that the client gets.
unfoldable pub directory_request : VerifyPasswordRequest → Directory.VerifyPasswordRequest
directory_request r = record {
  username = r.username;
  password = r.password;
  attribute_names = r.attribute_names;
}

module _ (env : Env) where
  unfoldable pub write_malformed_request :
      Handler → TenantRuntime → VerificationResult → Text → Time → Outcome
  write_malformed_request h runtime v connector_id now =
      let code = lit "malformed_request" in
      let event =
        error_event event_verify_error runtime.tenant_id runtime.connector_id v.request_id v.key_id
          code false [] in
      replied (release (record_storm (emit h event) connector_id malformed now) connector_id)
        (write_error 400 v.request_id [] connector_id code false)

  -- Do the body and the runtime name the same tenant, connector and request as the headers?
  unfoldable pub identifiers_agree :
      TenantRuntime → VerificationResult → VerifyPasswordRequest → Bool
  identifiers_agree runtime v request =
      request.tenant_id == runtime.tenant_id
      && request.connector_id == runtime.connector_id
      && request.request_id == v.request_id
      && v.connector_id == runtime.connector_id

  -- Behind the decoding of the body.
  unfoldable pub check_request :
      Handler
      → TenantRuntime
      → VerificationResult
      → Text
      → Time
      → Option VerifyPasswordRequest
      → Outcome
  check_request h runtime v connector_id now none =
      write_malformed_request h runtime v connector_id now
  check_request h runtime v connector_id now (some request) =
      let hash = username_hash env.crypto runtime.audit_hash_secret request.username in
      if not (valid_verify_password_request request)
      then write_malformed_request h runtime v connector_id now
      else if not (identifiers_agree runtime v request)
      then replied
          (release
            (emit h (
              error_event event_verify_error request.tenant_id request.connector_id v.request_id
                v.key_id (lit "tenant_connector_mismatch") false hash))
            connector_id)
          (write_error 403 v.request_id request.tenant_id connector_id
            (lit "tenant_connector_mismatch") false)
      else if storm_blocked h connector_id directory_error now
      then replied
          (release
            (emit h (
              error_event event_verify_error request.tenant_id request.connector_id
                request.request_id v.key_id (lit "directory_error_storm_limited") true hash))
            connector_id)
          (write_error 503 request.request_id request.tenant_id request.connector_id
            (lit "directory_error_storm_limited") true)
      else calling h (record {
        runtime = runtime;
        connector_id = connector_id;
        verification = v;
        request = request;
      })

  -- Behind `acquire`; `none` is a connector with no free slot.
  unfoldable pub with_slot :
      Handler → TenantRuntime → VerificationResult → Text → Text → Time → Option Handler → Outcome
  with_slot h runtime v body connector_id now none =
      replied
        (emit h (
          error_event event_verify_error runtime.tenant_id runtime.connector_id v.request_id
            v.key_id (lit "connector_rate_limited") true []))
        (write_error 429 v.request_id [] connector_id (lit "connector_rate_limited") true)
  with_slot h runtime v body connector_id now (some h') =
      if storm_blocked h' connector_id malformed now
      then replied
          (release
            (emit h' (
              error_event event_verify_error runtime.tenant_id runtime.connector_id v.request_id
                v.key_id (lit "malformed_request_storm_limited") true []))
            connector_id)
          (write_error 429 v.request_id [] connector_id (lit "malformed_request_storm_limited")
            true)
      else check_request h' runtime v connector_id now (env.decode_request body)

  -- Behind `Remember`.
  unfoldable pub remembered :
      Handler → TenantRuntime → VerificationResult → Text → Text → Time → Bool → Outcome
  remembered h runtime v body connector_id now true =
      with_slot h runtime v body connector_id now (acquire h connector_id)
  remembered h runtime v body connector_id now false =
      let event =
        error_event event_replay_detected runtime.tenant_id runtime.connector_id v.request_id
          v.key_id (lit "replay_detected") false [] in
      replied (record_storm (emit h event) connector_id replay now)
        (write_error 409 v.request_id [] connector_id (lit "replay_detected") false)

  abbrev pub key_of : TenantRuntime → VerificationResult → Text
  key_of runtime v = replay_key runtime.connector_id v.key_id v.request_id v.nonce

  -- Behind the verification of the signature.
  unfoldable pub authenticated :
      Handler → TenantRuntime → Text → Time → Result (VerificationResult × Text) → Outcome
  authenticated h runtime connector_id now (err body_too_large) =
      replied
        (emit h (
          error_event event_verify_error runtime.tenant_id runtime.connector_id [] []
            (lit "payload_too_large") false []))
        (write_error 413 [] [] connector_id (lit "payload_too_large") false)
  authenticated h runtime connector_id now (err e) =
      replied
        (emit h (
          error_event event_hmac_failure runtime.tenant_id runtime.connector_id [] []
            (hmac_error_code e) false []))
        (write_error 401 [] [] connector_id (hmac_error_code e) false)
  authenticated h runtime connector_id now (ok (v, body)) =
      let r = remember h.replay (key_of runtime v) now in
      if storm_blocked h connector_id replay now
      then replied
          (emit h (
            error_event event_verify_error runtime.tenant_id runtime.connector_id v.request_id
              v.key_id (lit "replay_storm_limited") true []))
          (write_error 429 v.request_id [] connector_id (lit "replay_storm_limited") true)
      else remembered (record h { replay = r.0 }) runtime v body connector_id now r.1

  abbrev pub verify_request : TenantRuntime → Time → Request → Result (VerificationResult × Text)
  verify_request runtime now req =
      verify env.unicode env.crypto env.parse_rfc3339 max_verify_password_body_bytes
        (new_verifier runtime.keys) now req

  -- Behind the lookup of the connector.
  unfoldable pub with_runtime : Handler → Text → Time → Request → Option TenantRuntime → Outcome
  with_runtime h connector_id now req none =
      replied
        (emit h (
          error_event event_verify_error [] unknown_metric_label [] [] (lit "unknown_connector")
            false []))
        (write_error 403 [] [] [] (lit "unknown_connector") false)
  with_runtime h connector_id now req (some runtime) =
      authenticated h runtime connector_id now (verify_request runtime now req)

  unfoldable pub admit : Handler → Time → Request → Outcome
  admit h now req =
      let connector_id = header_get req header_connector_id in
      with_runtime h connector_id now req (lookup connector_id h.tenants)
