-- ===== src/Http/Replays.antt =====
-- A signed request is acted on at most once, of internal/ports/httpapi/server.go.
use native.Mathlib.Nat.{le_refl}
use authrim_wordwarden.Prelude.{
  ◌≢◌, ◌≡◌, ◌≤◌, refl, ◌∙◌, Bool, List, [], ◌∷◌, some, Text, text_eq, arith, lookup,
}
use authrim_wordwarden.GoTime.{Time, add}
use authrim_wordwarden.Hmac.Request.{Request}
use authrim_wordwarden.Replay.{remember}
use authrim_wordwarden.Replay.Window.{lookup-remember_self, remember-refused}
use authrim_wordwarden.Http.State.{Env, Handler, TenantRuntime, five_minutes, new_handler}
use authrim_wordwarden.Http.Handler.{Pending, calling, admit, key_of}
use authrim_wordwarden.Http.Admission.{Admitted, admit-Admitted}
use authrim_wordwarden.Http.Concurrency.{System}
use authrim_wordwarden.Http.Bounded.{Run, start, later, initial}
use authrim_wordwarden.Http.Retention.{
  Keeps, replay-acquire, Step-Keeps, RunBy, RunBy-Keeps, verified_skew,
}

module _ (env : Env) where
  Run-ttl :
      {s t : System}
      → s.handler.replay.ttl ≡ five_minutes
      → Run env s t
      → t.handler.replay.ttl ≡ five_minutes
  Run-ttl e start = e
  Run-ttl e (later {t} {u} now r st) =
      (Step-Keeps env [] now now t u (le_refl now) st).ttl ∙ Run-ttl e r

  replay-Admitted :
      (h : Handler) (now : Time) (req : Request) (g : Handler) (p : Pending)
      → Admitted env h now req g p
      → g.replay ≡ (remember h.replay (key_of env p.runtime p.verification) now).0
  replay-Admitted h now req g p a = replay-acquire _ g p.connector_id a.slot

  -- The second admission is no later than the first one's entry lives.
  within_ttl :
      (h s : Handler) (now1 now2 : Time) (req1 req2 : Request) (h1 h2 : Handler) (p1 p2 : Pending)
      → Admitted env h now1 req1 h1 p1
      → Admitted env s now2 req2 h2 p2
      → p1.verification ≡ p2.verification
      → now2 ≤ add now1 five_minutes
  unfolding add
  within_ttl h s now1 now2 req1 req2 h1 h2 p1 p2 a1 a2 v = ground (
    arith,
    verified_skew env p1.runtime now1 req1 p1.verification a1.body a1.verified,
    verified_skew env p2.runtime now2 req2 p2.verification a2.body a2.verified,
  )

  refused_again :
      (h s : Handler) (now1 now2 : Time) (req1 req2 : Request) (h1 h2 : Handler) (p1 p2 : Pending)
      → h.replay.ttl ≡ five_minutes
      → Admitted env h now1 req1 h1 p1
      → Admitted env s now2 req2 h2 p2
      → Keeps (key_of env p1.runtime p1.verification) (add now1 five_minutes) h1.replay s.replay
      → p1.runtime.connector_id ≡ p2.runtime.connector_id
      → p1.verification ≡ p2.verification
      → ⊥
  refused_again h s now1 now2 req1 req2 h1 h2 p1 p2 ttl a1 a2 k c v =
      let key = key_of env p1.runtime p1.verification in
      let entered : lookup key h1.replay.entries ≡ some (add now1 five_minutes) =
        rw (replay-Admitted h now1 req1 h1 p1 a1, ← ttl)
          (lookup-remember_self h.replay key now1 a1.fresh) in
      let le = within_ttl h s now1 now2 req1 req2 h1 h2 p1 p2 a1 a2 v in
      cc (
        remember-refused s.replay key (add now1 five_minutes) now2 le (k.entry entered),
        a2.fresh,
        c,
        v,
      )

-- A signed request reaches the directory at most once: in every history of the handler from its
-- start, if a request is let through to the directory, and another one with the same verified
-- identifiers, timestamp and nonce for the same connector arrives later, when no step in between
-- was later than its arrival, then that one is answered without the directory.
pub no_replay :
    (env : Env) (version : Text) (tenants : List (Text × TenantRuntime)) (expose : Bool)
    (s t : System) (now1 now2 : Time) (req1 req2 : Request) (h1 h2 : Handler) (p1 p2 : Pending)
    → Run env (initial version tenants expose) s
    → admit env s.handler now1 req1 ≡ calling h1 p1
    → RunBy env now2 (record { handler = h1; in_flight = p1 ∷ s.in_flight }) t
    → p1.runtime.connector_id ≡ p2.runtime.connector_id
    → p1.verification ≡ p2.verification
    → admit env t.handler now2 req2 ≢ calling h2 p2
unfolding new_handler
no_replay env version tenants expose s t now1 now2 req1 req2 h1 h2 p1 p2 r e1 r' c v e2 =
    let a1 = admit-Admitted env s.handler now1 req1 h1 p1 e1 in
    let a2 = admit-Admitted env t.handler now2 req2 h2 p2 e2 in
    let le = within_ttl env s.handler t.handler now1 now2 req1 req2 h1 h2 p1 p2 a1 a2 v in
    let key = key_of env p1.runtime p1.verification in
    refused_again env s.handler t.handler now1 now2 req1 req2 h1 h2 p1 p2
      (Run-ttl env {s = initial version tenants expose} refl r) a1 a2
      (RunBy-Keeps env key (add now1 five_minutes) le r') c v
