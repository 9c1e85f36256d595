-- ===== src/Relay/Verification.antt =====
-- `processVerifyRequest` of internal/adapters/relay/client.go in two steps: `receive`, up to the
-- call of the directory client, and `conclude`, from its answer on. Each step reads the clock once.
use authrim_wordwarden.Prelude.{
  not, ◌&&◌, Bool, true, false, [], ◌++◌, Option, none, some, Text, lit, text_eq, ◌==◌, is_nil,
  if◌then◌else◌,
}
use authrim_wordwarden.GoTime.{Time}
use authrim_wordwarden.Audit.{
  Event, event_verify_success, event_verify_failure, event_verify_error, event_replay_detected,
}
use authrim_wordwarden.Directory
use authrim_wordwarden.Directory.{
  Answer, answered, failed, VerifyPasswordResult, result_success, result_source_unavailable,
  credential_result, safe_reason,
}
use authrim_wordwarden.Storm.{malformed, replay, directory_error}
use authrim_wordwarden.Replay.{remember}
use authrim_wordwarden.Hmac.Canonical.{Crypto}
use authrim_wordwarden.Http.Messages.{directory_error_code, username_hash}
use authrim_wordwarden.Relay.Messages.{
  VerifyRequestMessage, VerifyResponseMessage, ReplyMessage, verify_response, verify_error,
  envelope_of, is_verify_request, group_fact_messages,
}
use authrim_wordwarden.Relay.State.{
  RelayClient, take_limit, free_limit, emit_event, relay_storm_blocked, record_relay_storm,
  reset_relay_storm,
}

unfoldable pub valid_verify_request : RelayClient → VerifyRequestMessage → Bool
valid_verify_request c request =
    is_verify_request request.envelope
    && (not (is_nil request.id)
        && (not (is_nil request.request_id)
            && (request.tenant_id == c.config.tenant_id
                && (request.connector_id == c.config.connector_id
                    && (not (is_nil request.username) && not (is_nil request.password))))))

unfoldable pub relay_replay_key : VerifyRequestMessage → Text
relay_replay_key request =
    request.tenant_id ++ lit ":" ++ (request.connector_id ++ lit ":" ++ request.request_id)

unfoldable pub error_message : RelayClient → VerifyRequestMessage → Text → Bool → ReplyMessage
error_message c request code retryable = verify_error (record {
  envelope = envelope_of (lit "verify.error");
  id = request.id;
  request_id = request.request_id;
  tenant_id = c.config.tenant_id;
  connector_id = c.config.connector_id;
  code = code;
  retryable = retryable;
})

-- An event of the client; it has no key identifier.
unfoldable pub relay_event :
    RelayClient
    → VerifyRequestMessage
    → (event_type result reason error_code : Text) → Bool
    → (directory_status hash : Text) → Event
relay_event c request event_type result reason error_code retryable directory_status hash = record {
  event_type = event_type;
  tenant_id = c.config.tenant_id;
  connector_id = c.config.connector_id;
  request_id = request.request_id;
  key_id = [];
  result = result;
  reason = reason;
  error_code = error_code;
  retryable = retryable;
  directory_status = directory_status;
  username_hash = hash;
}

-- A request is answered, or waits for the directory.
pub data Progress : Type 0 where
  answered_with : RelayClient → ReplyMessage → Progress
  asking : RelayClient → Progress

module _ (crypto : Crypto) where
  abbrev pub hash_in : RelayClient → VerifyRequestMessage → Text
  hash_in c request = username_hash crypto c.config.audit_hash_secret request.username

  -- An error that is reported with the user's hash, and written to the audit.
  unfoldable pub refuse :
      RelayClient → VerifyRequestMessage → (event_type code : Text) → Bool → RelayClient
  refuse c request event_type code retryable =
      emit_event c
        (relay_event c request event_type (lit "error") [] code retryable [] (hash_in c request))

  -- Behind `validVerifyRequest`, with a request that is not valid.
  unfoldable pub receive_malformed : RelayClient → Time → VerifyRequestMessage → Progress
  receive_malformed c now request =
      let event : Text → Bool → Event = λ code retryable.
        relay_event c request event_verify_error (lit "error") [] code retryable [] [] in
      if relay_storm_blocked c malformed now
      then answered_with (emit_event c (event (lit "malformed_request_storm_limited") true))
          (error_message c request (lit "malformed_request_storm_limited") true)
      else answered_with
          (record_relay_storm (emit_event c (event (lit "invalid_relay_request") false)) malformed
            now)
          (error_message c request (lit "invalid_relay_request") false)

  -- Behind the send on `limit`; `none` is a client with no free slot.
  unfoldable pub receive_limited :
      RelayClient → Time → VerifyRequestMessage → Option RelayClient → Progress
  receive_limited c now request none =
      answered_with (refuse c request event_verify_error (lit "connector_rate_limited") true)
        (error_message c request (lit "connector_rate_limited") true)
  receive_limited c now request (some c') =
      if relay_storm_blocked c' directory_error now
      then answered_with
          (free_limit
            (refuse c' request event_verify_error (lit "directory_error_storm_limited") true))
          (error_message c' request (lit "directory_error_storm_limited") true)
      else asking c'

  -- Behind `Remember`.
  unfoldable pub receive_remembered : RelayClient → Time → VerifyRequestMessage → Bool → Progress
  receive_remembered c now request true = receive_limited c now request (take_limit c)
  receive_remembered c now request false =
      answered_with
        (record_relay_storm (refuse c request event_replay_detected (lit "replay_detected") false)
          replay now)
        (error_message c request (lit "replay_detected") false)

  unfoldable pub receive : RelayClient → Time → VerifyRequestMessage → Progress
  receive c now request =
      let r = remember c.replay (relay_replay_key request) now in
      if not (valid_verify_request c request)
      then receive_malformed c now request
      else if relay_storm_blocked c replay now
      then answered_with (refuse c request event_verify_error (lit "replay_storm_limited") true)
          (error_message c request (lit "replay_storm_limited") true)
      else receive_remembered (record c { replay = r.0 }) now request r.1

  unfoldable pub response_to : VerifyRequestMessage → VerifyPasswordResult → VerifyResponseMessage
  response_to request r = record {
    envelope = envelope_of (lit "verify.response");
    id = request.id;
    request_id = request.request_id;
    tenant_id = request.tenant_id;
    connector_id = request.connector_id;
    result = credential_result r;
    reason = safe_reason r;
    subject = none;
    attributes = [];
    group_facts = [];
    directory_status = lit "ok";
  }

  unfoldable pub success_response :
      VerifyRequestMessage → VerifyPasswordResult → VerifyResponseMessage
  success_response request r = record (response_to request r) {
    reason = [];
    subject =
        some (record { directory_id = r.subject.directory_id; username = r.subject.username });
    attributes = r.attributes;
    group_facts = group_fact_messages r.group_facts;
  }

  -- The directory gave no verdict.
  unfoldable pub conclude_unavailable :
      RelayClient → Time → VerifyRequestMessage → Text → RelayClient × ReplyMessage
  conclude_unavailable c now request code = (
    free_limit
        (record_relay_storm (refuse c request event_verify_error code true) directory_error now),
    error_message c request code true,
  )

  unfoldable pub conclude :
      RelayClient → Time → VerifyRequestMessage → Answer → RelayClient × ReplyMessage
  conclude c now request (failed e) = conclude_unavailable c now request (directory_error_code e)
  conclude c now request (answered r) =
      let c' = reset_relay_storm c directory_error in
      if credential_result r == result_source_unavailable
      then conclude_unavailable c now request (safe_reason r)
      else if credential_result r == result_success
      then (
        free_limit (
            emit_event c' (
              relay_event c request event_verify_success result_success [] [] false (lit "ok")
                (hash_in c request))),
        verify_response (success_response request r),
      )
      else (
        free_limit (
            emit_event c' (
              relay_event c request event_verify_failure (credential_result r) (safe_reason r) []
                false (lit "ok") (hash_in c request))),
        verify_response (response_to request r),
      )

  unfoldable pub directory_call : VerifyRequestMessage → Directory.VerifyPasswordRequest
  directory_call request = record {
    username = request.username;
    password = request.password;
    attribute_names = request.attribute_names;
  }

  -- One request from its arrival at `now` to its reply, with the directory's answer at `later`.
  unfoldable pub process_verify_request :
      RelayClient
      → Time
      → VerifyRequestMessage
      → Time
      → (Directory.VerifyPasswordRequest → Answer)
      → RelayClient × ReplyMessage
  process_verify_request c now request later directory = elim (receive c now request) [
    | answered_with c' reply ↦ (c', reply)
    | asking c' ↦ conclude c' later request (directory (directory_call request))
  ]
