-- ===== src/Http/Completion.antt =====
-- The second step of `verifyPassword` of internal/ports/httpapi/server.go: what follows the answer
-- of the directory client, the deferred release of the slot included.
use authrim_wordwarden.Prelude.{
  true, false, not, [], none, some, Text, lit, text_eq, ◌==◌, if◌then◌else◌,
}
use authrim_wordwarden.GoTime.{Time}
use authrim_wordwarden.Audit.{Event, event_verify_success, event_verify_failure, event_verify_error}
use authrim_wordwarden.Directory
use authrim_wordwarden.Directory.{
  Answer, answered, failed, VerifyPasswordResult, result_success, result_source_unavailable,
  credential_result, safe_reason,
}
use authrim_wordwarden.Storm.{directory_error}
use authrim_wordwarden.Hmac.Request.{Request}
use authrim_wordwarden.Http.Messages.{
  VerifyPasswordResponse, Reply, verify_reply, group_fact_responses, directory_error_code,
  username_hash,
}
use authrim_wordwarden.Http.State.{Env, Handler, emit, release, record_storm, reset_storm}
use authrim_wordwarden.Http.Handler.{
  Pending, replied, calling, admit, error_event, write_error, directory_request,
}

module _ (env : Env) where
  abbrev hash_of : Pending → Text
  hash_of p = username_hash env.crypto p.runtime.audit_hash_secret p.request.username

  -- The directory gave no verdict: an error, or a source that is not available.
  unfoldable pub unavailable : Handler → Time → Pending → Text → Handler × Reply
  unavailable h now p code = (
    release
        (record_storm
          (emit h (
            error_event event_verify_error p.request.tenant_id p.request.connector_id
              p.request.request_id p.verification.key_id code true (hash_of p)))
          p.connector_id directory_error now)
        p.connector_id,
    write_error 503 p.request.request_id p.request.tenant_id p.request.connector_id code true,
  )

  -- The event of a verdict.
  unfoldable pub verdict_event : Pending → Text → Text → Text → Event
  verdict_event p event_type result reason = record {
    event_type = event_type;
    tenant_id = p.request.tenant_id;
    connector_id = p.request.connector_id;
    request_id = p.request.request_id;
    key_id = p.verification.key_id;
    result = result;
    reason = reason;
    error_code = [];
    retryable = false;
    directory_status = lit "ok";
    username_hash = hash_of p;
  }

  unfoldable pub refusal : Pending → VerifyPasswordResult → VerifyPasswordResponse
  refusal p r = record {
    request_id = p.request.request_id;
    tenant_id = p.request.tenant_id;
    connector_id = p.request.connector_id;
    result = credential_result r;
    reason = safe_reason r;
    subject = none;
    attributes = [];
    group_facts = [];
    directory_status = lit "ok";
  }

  unfoldable pub confirmation : Pending → VerifyPasswordResult → VerifyPasswordResponse
  confirmation p r = record {
    request_id = p.request.request_id;
    tenant_id = p.request.tenant_id;
    connector_id = p.request.connector_id;
    result = result_success;
    reason = [];
    subject =
        some (record { directory_id = r.subject.directory_id; username = r.subject.username });
    attributes = r.attributes;
    group_facts = group_fact_responses r.group_facts;
    directory_status = lit "ok";
  }

  unfoldable pub complete : Handler → Time → Pending → Answer → Handler × Reply
  complete h now p (failed e) = unavailable h now p (directory_error_code e)
  complete h now p (answered r) =
      let h' = reset_storm h p.connector_id directory_error in
      if credential_result r == result_source_unavailable
      then unavailable h now p (safe_reason r)
      else if not (credential_result r == result_success)
      then (
        release
            (emit h' (verdict_event p event_verify_failure (credential_result r) (safe_reason r)))
            p.connector_id,
        verify_reply 200 (refusal p r),
      )
      else (
        release (emit h' (verdict_event p event_verify_success result_success [])) p.connector_id,
        verify_reply 200 (confirmation p r),
      )

  -- One request from its arrival at `now` to its reply, with the directory's answer at `later`.
  unfoldable pub serve :
      Handler → Time → Request → Time → (Directory.VerifyPasswordRequest → Answer) → Handler × Reply
  serve h now req later directory = elim (admit env h now req) [
    | replied h' reply ↦ (h', reply)
    | calling h' p ↦ complete h' later p (directory (directory_request p.request))
  ]
