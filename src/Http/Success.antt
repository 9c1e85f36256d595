-- ===== src/Http/Success.antt =====
-- What a success reply of internal/ports/httpapi/server.go rests on.
use authrim_wordwarden.Prelude.{ℕ, ◌≡◌, ◌≢◌, refl, ap, ◌∙◌, true, text_eq, text_iff, arith}
use authrim_wordwarden.GoTime.{Time}
use authrim_wordwarden.Directory
use authrim_wordwarden.Directory.{
  Answer, answered, failed, VerifyPasswordResult, result_success, result_source_unavailable,
  credential_result, is_success, safe_reason,
}
use authrim_wordwarden.Hmac.Request.{Request}
use authrim_wordwarden.Http.Messages.{VerifyPasswordResponse, Reply, error_reply, verify_reply}
use authrim_wordwarden.Http.State.{Env, Handler}
use authrim_wordwarden.Http.Handler.{
  Pending, Outcome, replied, calling, admit, directory_request, write_error,
  write_malformed_request, check_request, with_slot, remembered, authenticated, with_runtime,
}
use authrim_wordwarden.Http.Completion.{complete, serve, unavailable, refusal, confirmation}
use authrim_wordwarden.Http.Admission.{Admitted, admit-Admitted}

abbrev IsError : Reply → Type 0
IsError (error_reply status e) = Unit
IsError (verify_reply status r) = ⊥

abbrev ErrorOnly : Outcome → Type 0
ErrorOnly (replied h reply) = IsError reply
ErrorOnly (calling h p) = Unit

module _ (env : Env) where
  complete_success :
      (h : Handler) (now : Time) (p : Pending) (answer : Answer) (status : ℕ)
      (r : VerifyPasswordResponse)
      → (complete env h now p answer).1 ≡ verify_reply status r
      → r.result ≡ result_success
      → (a : VerifyPasswordResult) × (answer ≡ answered a)
        × (is_success a ≡ true)
        × (status ≡ 200)
        × (r ≡ confirmation env p a)
  unfolding complete unavailable refusal write_error is_success
  complete_success h now p (failed e) status r q s = cc
  complete_success h now p (answered a) status r q s = (
    a,
    refl,
    ground (
      arith,
      text_iff (credential_result a) result_success,
      text_iff (credential_result a) result_source_unavailable,
    ),
    ground arith,
    ground (arith, text_iff (credential_result a) result_success),
  )

  admit-ErrorOnly :
      (h : Handler) (now : Time) (req : Request) (h' : Handler) (status : ℕ)
      (r : VerifyPasswordResponse)
      → admit env h now req ≢ replied h' (verify_reply status r)
  unfolding admit with_runtime authenticated remembered with_slot check_request
      write_malformed_request write_error
  admit-ErrorOnly h now req h' status r = ground arith

  -- What a success reply shows of the request and of the directory's answer.
  pub record Proven (h : Handler) (now : Time) (req : Request)
      (directory : Directory.VerifyPasswordRequest → Answer) (status : ℕ)
      (r : VerifyPasswordResponse) : Type 0 where
    pub after_admission : Handler
    pub pending : Pending
    pub answer : VerifyPasswordResult
    pub admitted : Admitted env h now req after_admission pending
    pub asked : directory (directory_request pending.request) ≡ answered answer
    pub success : is_success answer ≡ true
    pub status_is : status ≡ 200
    pub response : r ≡ confirmation env pending answer

  serve_cases :
      (h : Handler) (now : Time) (req : Request) (later : Time)
      (directory : Directory.VerifyPasswordRequest → Answer) (o : Outcome) (status : ℕ)
      (r : VerifyPasswordResponse)
      → admit env h now req ≡ o
      → (serve env h now req later directory).1 ≡ verify_reply status r
      → r.result ≡ result_success
      → Proven h now req directory status r
  unfolding serve
  serve_cases h now req later directory (replied h' reply) status r e q s =
      absurd (admit-ErrorOnly h now req h' status r (e ∙ ap (replied h') (rw (e, serve) at q)))
  serve_cases h now req later directory (calling h' p) status r e q s =
      let (a, asked, success, ok200, is) =
        complete_success h' later p (directory (directory_request p.request)) status r
          (rw (e, serve) at q) s in
      record {
        after_admission = h';
        pending = p;
        answer = a;
        admitted = admit-Admitted env h now req h' p e;
        asked = asked;
        success = success;
        status_is = ok200;
        response = is;
      }

-- A reply that says "success" has the status 200 and is the confirmation of a request that passed
-- every check (a known connector, a signature that verifies, a key not seen within the time to live,
-- a free slot, a well-formed body whose identifiers agree, and no storm), and for which the
-- directory itself answered a success to this user name and password.
pub success_sound :
    (env : Env) (h : Handler) (now : Time) (req : Request) (later : Time)
    (directory : Directory.VerifyPasswordRequest → Answer) (status : ℕ) (r : VerifyPasswordResponse)
    → (serve env h now req later directory).1 ≡ verify_reply status r
    → r.result ≡ result_success
    → Proven env h now req directory status r
success_sound env h now req later directory status r q s =
    serve_cases env h now req later directory (admit env h now req) status r refl q s
