-- ===== src/Http/Bounded.antt =====
-- No connector has more requests in flight than slots, of internal/ports/httpapi/server.go.
use authrim_wordwarden.Prelude.{
  ℕ, ◌≡◌, ◌≤◌, refl, subst, Bool, List, [], ◌∷◌, ◌++◌, Option, none, some, Text, text_eq, ◌==◌,
  arith, Bool-cases, inl, inr, lookup, Option-cases, map,
}
use authrim_wordwarden.GoTime.{Time}
use authrim_wordwarden.Directory.{
  Answer, answered, failed, credential_result, safe_reason, result_source_unavailable,
  result_success,
}
use authrim_wordwarden.Hmac.Request.{Request, Result, ok, err, body_too_large, header_get}
use authrim_wordwarden.Hmac.Headers.{header_connector_id}
use authrim_wordwarden.Hmac.Verifier.{VerificationResult}
use authrim_wordwarden.Http.Messages.{
  directory_error_code, VerifyPasswordRequest, valid_verify_password_request,
}
use authrim_wordwarden.Storm.{malformed, replay, directory_error}
use authrim_wordwarden.Replay.{remember}
use authrim_wordwarden.Http.State.{
  Env, Handler, Slots, TenantRuntime, new_handler, new_slots, emit, acquire, release, record_storm,
  reset_storm, storm_blocked,
}
use authrim_wordwarden.Http.Handler.{
  Pending, Outcome, replied, calling, admit, write_malformed_request, check_request, with_slot,
  remembered, authenticated, with_runtime, identifiers_agree, key_of, verify_request,
}
use authrim_wordwarden.Http.Completion.{complete, unavailable}
use authrim_wordwarden.Http.Concurrency.{
  System, Step, turned_away, let_in, finished, in_flight_of, in_flight_of-append, Holds, one_more,
  one_less, acquire-Holds, release-Holds,
}

abbrev OutcomeHolds : Text → ℕ → Outcome → Type 0
OutcomeHolds c n (replied h reply) = Holds c n h
OutcomeHolds c n (calling h p) = Holds c (one_more p.connector_id c n) h

-- Releasing what was acquired, whatever kept the limits in between.
released :
    (c cid : Text) (n : ℕ) (h : Handler) → Holds c (one_more cid c n) h → Holds c n (release h cid)
released c cid n h f s q =
    let r = release-Holds c cid (one_more cid c n) h f s q in ground (arith, r)

module _ (env : Env) (c : Text) (n : ℕ) where
  malformed-Holds :
      (h : Handler) (runtime : TenantRuntime) (v : VerificationResult) (cid : Text) (now : Time)
      → Holds c (one_more cid c n) h
      → OutcomeHolds c n (write_malformed_request env h runtime v cid now)
  unfolding write_malformed_request emit record_storm reset_storm
  malformed-Holds h runtime v cid now f = released c cid n _ f

  check_request-Holds :
      (h : Handler) (runtime : TenantRuntime) (v : VerificationResult) (cid : Text) (now : Time)
      (o : Option VerifyPasswordRequest)
      → Holds c (one_more cid c n) h
      → OutcomeHolds c n (check_request env h runtime v cid now o)
  unfolding check_request emit record_storm reset_storm
  check_request-Holds h runtime v cid now none f = malformed-Holds h runtime v cid now f
  check_request-Holds h runtime v cid now (some r) f =
      elim (Bool-cases (valid_verify_password_request r)) [
        | inr bad ↦ rw (bad, check_request) (malformed-Holds h runtime v cid now f)
        | inl good ↦ elim (Bool-cases (identifiers_agree env runtime v r)) [
          | inr differ ↦ rw (good, differ, check_request) (released c cid n _ f)
          | inl agree ↦ elim (Bool-cases (storm_blocked h cid directory_error now)) [
            | inl stormy ↦ rw (good, agree, stormy, check_request) (released c cid n _ f)
            | inr calm ↦ rw (good, agree, calm, check_request) f
          ]
        ]
      ]

  with_slot-Holds :
      (h : Handler) (runtime : TenantRuntime) (v : VerificationResult) (body cid : Text)
      (now : Time) (o : Option Handler)
      → acquire h cid ≡ o
      → Holds c n h
      → OutcomeHolds c n (with_slot env h runtime v body cid now o)
  unfolding with_slot emit record_storm reset_storm
  with_slot-Holds h runtime v body cid now none e f = f
  with_slot-Holds h runtime v body cid now (some g) e f =
      let held = acquire-Holds c cid n h g e f in
      elim (Bool-cases (storm_blocked g cid malformed now)) [
        | inl stormy ↦ rw (stormy, with_slot) (released c cid n _ held)
        | inr calm ↦
            rw (calm, with_slot)
              (check_request-Holds g runtime v cid now (env.decode_request body) held)
      ]

  authenticated-Holds :
      (h : Handler) (runtime : TenantRuntime) (cid : Text) (now : Time)
      (r : Result (VerificationResult × Text))
      → Holds c n h
      → OutcomeHolds c n (authenticated env h runtime cid now r)
  unfolding authenticated remembered emit record_storm reset_storm
  authenticated-Holds h runtime cid now (err body_too_large) f = f
  authenticated-Holds h runtime cid now (err x) f = f
  authenticated-Holds h runtime cid now (ok (v, body)) f =
      elim (Bool-cases (storm_blocked h cid replay now)) [
        | inl stormy ↦ rw (stormy, authenticated) f
        | inr calm ↦ elim (Bool-cases (remember h.replay (key_of env runtime v) now).1) [
          | inr old ↦ rw (calm, old, authenticated, remembered) f
          | inl new ↦
              let g : Handler = record h {
                replay = (remember h.replay (key_of env runtime v) now).0;
              } in
              rw (calm, new, authenticated, remembered)
                (with_slot-Holds g runtime v body cid now (acquire g cid) refl f)
        ]
      ]

  admit-Holds :
      (h : Handler) (now : Time) (req : Request)
      → Holds c n h
      → OutcomeHolds c n (admit env h now req)
  unfolding admit with_runtime emit record_storm reset_storm
  admit-Holds h now req f =
      elim (Option-cases (lookup (header_get req header_connector_id) h.tenants)) [
        | inl unknown ↦ rw (unknown, admit, with_runtime) f
        | inr (runtime, known) ↦
            rw (known, admit, with_runtime)
              (authenticated-Holds h runtime (header_get req header_connector_id) now
                (verify_request env runtime now req) f)
      ]

  unavailable-Holds :
      (h : Handler) (now : Time) (p : Pending) (code : Text)
      → Holds c n h
      → Holds c (one_less p.connector_id c n) (unavailable env h now p code).0
  unfolding unavailable emit record_storm
  unavailable-Holds h now p code f = release-Holds c p.connector_id n _ f

  complete-Holds :
      (h : Handler) (now : Time) (p : Pending) (a : Answer)
      → Holds c n h
      → Holds c (one_less p.connector_id c n) (complete env h now p a).0
  unfolding complete emit reset_storm
  complete-Holds h now p (failed e) f = unavailable-Holds h now p (directory_error_code e) f
  complete-Holds h now p (answered r) f =
      elim (Bool-cases (credential_result r == result_source_unavailable)) [
        | inl down ↦ rw (down, complete) (unavailable-Holds h now p (safe_reason r) f)
        | inr up ↦ elim (Bool-cases (credential_result r == result_success)) [
          | inl good ↦ rw (up, good, complete) (release-Holds c p.connector_id n _ f)
          | inr bad ↦ rw (up, bad, complete) (release-Holds c p.connector_id n _ f)
        ]
      ]

-- Every connector holds exactly as many slots as it has requests in flight, and has no fewer.
pub IsBounded : System → Type 0
IsBounded s = (c : Text) → Holds c (in_flight_of c s.in_flight) s.handler

finished-count :
    (c : Text) (before : List Pending) (p : Pending) (behind : List Pending)
    → in_flight_of c (before ++ behind)
      ≡ one_less p.connector_id c (in_flight_of c (before ++ p ∷ behind))
unfolding in_flight_of
finished-count c before p behind =
    ground (arith, in_flight_of-append c before behind, in_flight_of-append c before (p ∷ behind))

Step-IsBounded :
    (env : Env) (now : Time) (s t : System) → Step env now s t → IsBounded s → IsBounded t
unfolding IsBounded in_flight_of
Step-IsBounded env now s t (turned_away req h reply e) f c =
    subst (OutcomeHolds c (in_flight_of c s.in_flight)) e
      (admit-Holds env c (in_flight_of c s.in_flight) s.handler now req (f c))
Step-IsBounded env now s t (let_in req h p e) f c =
    subst (OutcomeHolds c (in_flight_of c s.in_flight)) e
      (admit-Holds env c (in_flight_of c s.in_flight) s.handler now req (f c))
Step-IsBounded env now s t (finished before p behind answer e) f c =
    rw (finished-count c before p behind, ← e)
      (complete-Holds env c (in_flight_of c s.in_flight) s.handler now p answer (f c))

-- A run: steps at any instants.
pub data Run (env : Env) (s : System) : System → Type 0 where
  start : Run env s s
  later : {t u : System} (now : Time) → Run env s t → Step env now t u → Run env s u

Run-IsBounded : {env : Env} {s t : System} → IsBounded s → Run env s t → IsBounded t
Run-IsBounded f start = f
Run-IsBounded {env} f (later {t} {u} now r st) = Step-IsBounded env now t u st (Run-IsBounded f r)

abbrev pub initial : Text → List (Text × TenantRuntime) → Bool → System
initial version tenants expose = record {
  handler = new_handler version tenants expose;
  in_flight = [];
}

new_slots-unused :
    (c : Text) (tenants : List (Text × TenantRuntime)) (s : Slots)
    → lookup c (map new_slots tenants) ≡ some s
    → s.used ≡ 0
unfolding lookup
new_slots-unused c [] s e = cc
new_slots-unused c ((k, r) ∷ tenants) s e = ground (arith, new_slots-unused c tenants s)

initial-IsBounded :
    (version : Text) (tenants : List (Text × TenantRuntime)) (expose : Bool)
    → IsBounded (initial version tenants expose)
unfolding IsBounded new_handler in_flight_of
initial-IsBounded version tenants expose c s e = (new_slots-unused c tenants s e, omega arith)

-- After any interleaving of requests from the start, the slots that a connector uses are exactly
-- its requests in flight, and these are at most the connector's capacity.
pub concurrency_bounded :
    (env : Env) (version : Text) (tenants : List (Text × TenantRuntime)) (expose : Bool)
    (s : System) (c : Text) (slots : Slots)
    → Run env (initial version tenants expose) s
    → lookup c s.handler.limits ≡ some slots
    → (slots.used ≡ in_flight_of c s.in_flight) × (in_flight_of c s.in_flight ≤ slots.capacity)
unfolding IsBounded
concurrency_bounded env version tenants expose s c slots r e =
    Run-IsBounded (initial-IsBounded version tenants expose) r c slots e
