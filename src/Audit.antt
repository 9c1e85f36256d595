-- ===== src/Audit.antt =====
-- internal/core/audit: the events. The identifier, the time and the latency of an event, which are
-- drawn from the clock and a random source, are left out.
use authrim_wordwarden.Prelude.{Bool, Text, lit}

abbrev pub event_verify_success : Text
event_verify_success = lit "directory_password.verify.success"

abbrev pub event_verify_failure : Text
event_verify_failure = lit "directory_password.verify.failure"

abbrev pub event_verify_error : Text
event_verify_error = lit "directory_password.verify.error"

abbrev pub event_hmac_failure : Text
event_hmac_failure = lit "directory_password.hmac.failure"

abbrev pub event_replay_detected : Text
event_replay_detected = lit "directory_password.replay.detected"

pub record Event : Type 0 where
  pub event_type : Text
  pub tenant_id : Text
  pub connector_id : Text
  pub request_id : Text
  pub key_id : Text
  pub result : Text
  pub reason : Text
  pub error_code : Text
  pub retryable : Bool
  pub directory_status : Text
  pub username_hash : Text
