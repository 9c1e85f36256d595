-- ===== src/Http/Retention.antt =====
-- How long the replay cache of the handler keeps a key, of internal/ports/httpapi/server.go.
use authrim_wordwarden.Prelude.{
  ◌+◌, ◌≡◌, ◌≤◌, refl, ◌∙◌, sym, subst, Bool, some, Text, text_eq, arith, Bool-cases, inl, inr,
  lookup, Option-cases,
}
use authrim_wordwarden.GoTime.{Time}
use authrim_wordwarden.Directory.{Answer, answered, failed}
use authrim_wordwarden.Hmac.Request.{Request, Result, ok, err, body_too_large, read_all, header_get}
use authrim_wordwarden.Hmac.Headers.{header_connector_id}
use authrim_wordwarden.Hmac.Verifier.{VerificationResult, verify}
use authrim_wordwarden.Hmac.Soundness.{bind_cases, verify_iff}
use authrim_wordwarden.Storm.{replay}
use authrim_wordwarden.Replay.{ReplayCache, remember}
use authrim_wordwarden.Replay.Window.{lookup-remember, ttl-remember}
use authrim_wordwarden.Http.State.{
  Env, Handler, TenantRuntime, storm_blocked, emit, acquire, release, record_storm, reset_storm,
}
use authrim_wordwarden.Http.Handler.{
  Pending, Outcome, replied, calling, admit, write_malformed_request, check_request, with_slot,
  remembered, authenticated, with_runtime, key_of, verify_request, max_verify_password_body_bytes,
}
use authrim_wordwarden.Http.Completion.{complete, unavailable}
use authrim_wordwarden.Http.Concurrency.{System, Step, turned_away, let_in, finished}

abbrev handler_of : Outcome → Handler
handler_of (replied h reply) = h
handler_of (calling h p) = h

replay-release : (h : Handler) (cid : Text) → (release h cid).replay ≡ h.replay
unfolding release
replay-release h cid = ground arith

pub replay-acquire : (h g : Handler) (cid : Text) → acquire h cid ≡ some g → g.replay ≡ h.replay
unfolding acquire
replay-acquire h g cid e = ground arith

-- The time to live, and an entry that has not expired, stay.
pub record Keeps (key : Text) (x : Time) (c d : ReplayCache) : Type 0 where
  pub ttl : d.ttl ≡ c.ttl
  pub entry : lookup key c.entries ≡ some x → lookup key d.entries ≡ some x

pub Keeps-refl : (key : Text) (x : Time) (c : ReplayCache) → Keeps key x c c
Keeps-refl key x c = record { ttl = refl; entry = λ e. e }

remember-Keeps :
    (key : Text) (x : Time) (c : ReplayCache) (k : Text) (now : Time)
    → now ≤ x
    → Keeps key x c (remember c k now).0
remember-Keeps key x c k now le = record {
  ttl = ttl-remember c k now;
  entry = lookup-remember c key k x now le;
}

module _ (env : Env) where
  replay-remembered :
      (h : Handler) (runtime : TenantRuntime) (v : VerificationResult) (body cid : Text)
      (now : Time) (b : Bool)
      → (handler_of (remembered env h runtime v body cid now b)).replay ≡ h.replay
  unfolding remembered with_slot check_request write_malformed_request emit record_storm
  replay-remembered h runtime v body cid now b = grind (arith, replay-release, replay-acquire)

  replay-complete :
      (h : Handler) (now : Time) (p : Pending) (a : Answer)
      → (complete env h now p a).0.replay ≡ h.replay
  unfolding complete unavailable emit record_storm reset_storm
  replay-complete h now p (failed e) = grind (arith, replay-release)
  replay-complete h now p (answered r) = grind (arith, replay-release)

  authenticated-Keeps :
      (key : Text) (x : Time) (h : Handler) (runtime : TenantRuntime) (cid : Text) (now : Time)
      (r : Result (VerificationResult × Text))
      → now ≤ x
      → Keeps key x h.replay (handler_of (authenticated env h runtime cid now r)).replay
  unfolding authenticated emit
  authenticated-Keeps key x h runtime cid now (err body_too_large) le = Keeps-refl key x h.replay
  authenticated-Keeps key x h runtime cid now (err y) le = Keeps-refl key x h.replay
  authenticated-Keeps key x h runtime cid now (ok (v, body)) le =
      let r = remember h.replay (key_of env runtime v) now in
      elim (Bool-cases (storm_blocked h cid replay now)) [
        | inl stormy ↦ rw (stormy, authenticated) (Keeps-refl key x h.replay)
        | inr calm ↦
            rw (calm, authenticated)
              (subst (Keeps key x h.replay)
                (sym (replay-remembered (record h { replay = r.0 }) runtime v body cid now r.1))
                (remember-Keeps key x h.replay (key_of env runtime v) now le))
      ]

  admit-Keeps :
      (key : Text) (x : Time) (h : Handler) (now : Time) (req : Request)
      → now ≤ x
      → Keeps key x h.replay (handler_of (admit env h now req)).replay
  unfolding admit with_runtime emit
  admit-Keeps key x h now req le =
      elim (Option-cases (lookup (header_get req header_connector_id) h.tenants)) [
        | inl unknown ↦ rw (unknown, admit, with_runtime) (Keeps-refl key x h.replay)
        | inr (runtime, known) ↦
            rw (known, admit, with_runtime)
              (authenticated-Keeps key x h runtime (header_get req header_connector_id) now
                (verify_request env runtime now req) le)
      ]

  pub Step-Keeps :
      (key : Text) (x now : Time) (s t : System)
      → now ≤ x
      → Step env now s t
      → Keeps key x s.handler.replay t.handler.replay
  Step-Keeps key x now s t le (turned_away req h reply e) =
      subst (λ o. Keeps key x s.handler.replay (handler_of o).replay) e
        (admit-Keeps key x s.handler now req le)
  Step-Keeps key x now s t le (let_in req h p e) =
      subst (λ o. Keeps key x s.handler.replay (handler_of o).replay) e
        (admit-Keeps key x s.handler now req le)
  Step-Keeps key x now s t le (finished before p behind answer e) =
      rw (replay-complete s.handler now p answer) (Keeps-refl key x s.handler.replay)

  -- A run whose steps are no later than `last`.
  pub data RunBy (last : Time) (s : System) : System → Type 0 where
    at_once : RunBy last s s
    then_step :
        {t u : System} (now : Time)
        → now ≤ last
        → RunBy last s t
        → Step env now t u
        → RunBy last s u

  pub RunBy-Keeps :
      (key : Text) (x : Time) {last : Time} {s t : System}
      → last ≤ x
      → RunBy last s t
      → Keeps key x s.handler.replay t.handler.replay
  RunBy-Keeps key x {s} le at_once = Keeps-refl key x s.handler.replay
  RunBy-Keeps key x {s} le (then_step {t} {u} now early r st) =
      let before = RunBy-Keeps key x le r in
      let step = Step-Keeps key x now t u (omega arith) st in
      record { ttl = step.ttl ∙ before.ttl; entry = λ e. step.entry (before.entry e) }

  -- The instant that the timestamp names is within two minutes of the clock.
  pub verified_skew :
      (runtime : TenantRuntime) (now : Time) (req : Request) (v : VerificationResult) (body : Text)
      → verify_request env runtime now req ≡ ok (v, body)
      → (now ≤ v.timestamp + 120000000000) × (v.timestamp ≤ now + 120000000000)
  unfolding verify
  verified_skew runtime now req v body e =
      bind_cases (read_all max_verify_password_body_bytes req.body) e λ bytes read e1.
        bind_cases _ e1 λ w verified e2.
          let a =
            (verify_iff env.unicode env.crypto env.parse_rfc3339 runtime.keys now req bytes w).0
              verified in
          ground (arith, a.not_old, a.not_early)
