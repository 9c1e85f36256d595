-- ===== src/Http/Keeps.antt =====
-- What the steps of internal/ports/httpapi/server.go do to the audit log and the slots.
use authrim_wordwarden.Prelude.{ℕ, suc, ◌≡◌, refl, ap, ◌∙◌, some, Text, text_eq, arith, length}
use authrim_wordwarden.GoTime.{Time}
use authrim_wordwarden.Directory
use authrim_wordwarden.Directory.{Answer, answered, failed}
use authrim_wordwarden.Hmac.Request.{Request}
use authrim_wordwarden.Storm.{StormKind}
use authrim_wordwarden.Audit.{Event}
use authrim_wordwarden.Http.State.{Env, Handler, emit, acquire, release, record_storm, reset_storm}
use authrim_wordwarden.Http.Handler.{
  Pending, Outcome, replied, calling, admit, write_malformed_request, check_request, with_slot,
  remembered, authenticated, with_runtime,
}
use authrim_wordwarden.Http.Completion.{complete, serve, unavailable}

-- The events so far, of a handler or of what a step returns.
abbrev Logged : ℕ → Outcome → Type 0
Logged n (replied h reply) = length h.audit ≡ suc n
Logged n (calling h p) = length h.audit ≡ n

audit-record_storm :
    (h : Handler) (cid : Text) (kind : StormKind) (now : Time)
    → (record_storm h cid kind now).audit ≡ h.audit
unfolding record_storm
audit-record_storm h cid kind now = ground arith

audit-reset_storm :
    (h : Handler) (cid : Text) (kind : StormKind) → (reset_storm h cid kind).audit ≡ h.audit
unfolding reset_storm
audit-reset_storm h cid kind = ground arith

audit-release : (h : Handler) (cid : Text) → (release h cid).audit ≡ h.audit
unfolding release
audit-release h cid = ground arith

audit-acquire : (h g : Handler) (cid : Text) → acquire h cid ≡ some g → g.audit ≡ h.audit
unfolding acquire
audit-acquire h g cid e = ground arith

audit-emit : (h : Handler) (e : Event) → length (emit h e).audit ≡ suc (length h.audit)
unfolding emit
audit-emit h e = refl

module _ (env : Env) where
  admit-Logged :
      (h : Handler) (now : Time) (req : Request) → Logged (length h.audit) (admit env h now req)
  unfolding admit with_runtime authenticated remembered with_slot check_request
      write_malformed_request
  admit-Logged h now req =
      grind (arith, audit-record_storm, audit-release, audit-acquire, audit-emit)

  complete-Logged :
      (h : Handler) (now : Time) (p : Pending) (a : Answer)
      → length (complete env h now p a).0.audit ≡ suc (length h.audit)
  unfolding complete unavailable
  complete-Logged h now p (failed e) = grind (arith, audit-record_storm, audit-release, audit-emit)
  complete-Logged h now p (answered r) =
      grind (arith, audit-record_storm, audit-reset_storm, audit-release, audit-emit)

  serve_cases :
      (h : Handler) (now : Time) (req : Request) (later : Time)
      (directory : Directory.VerifyPasswordRequest → Answer) (o : Outcome)
      → admit env h now req ≡ o
      → Logged (length h.audit) o
      → length (serve env h now req later directory).0.audit ≡ suc (length h.audit)
  unfolding serve
  serve_cases h now req later directory (replied h' reply) e l = rw (e, serve) l
  serve_cases h now req later directory (calling h' p) e l =
      rw (e, serve) (complete-Logged h' later p _ ∙ ap suc l)

-- Each request writes exactly one audit event, on every path from its arrival to its reply.
pub one_event :
    (env : Env) (h : Handler) (now : Time) (req : Request) (later : Time)
    (directory : Directory.VerifyPasswordRequest → Answer)
    → length (serve env h now req later directory).0.audit ≡ suc (length h.audit)
one_event env h now req later directory =
    serve_cases env h now req later directory (admit env h now req) refl
      (admit-Logged env h now req)
