-- ===== src/Http/Admission.antt =====
-- When `verifyPassword` of internal/ports/httpapi/server.go reaches the directory client.
use authrim_wordwarden.Prelude.{
  ◌≡◌, refl, true, false, Option, none, some, Text, text_eq, lookup, arith, Option-cases,
  Bool-cases, ap, inl, inr,
}
use authrim_wordwarden.GoTime.{Time}
use authrim_wordwarden.Storm.{malformed, replay, directory_error}
use authrim_wordwarden.Replay.{remember}
use authrim_wordwarden.Hmac.Request.{Request, Result, ok, err, body_too_large, header_get}
use authrim_wordwarden.Hmac.Headers.{header_connector_id}
use authrim_wordwarden.Hmac.Verifier.{VerificationResult}
use authrim_wordwarden.Http.Messages.{VerifyPasswordRequest, valid_verify_password_request}
use authrim_wordwarden.Http.State.{Env, TenantRuntime, Handler, acquire, storm_blocked}
use authrim_wordwarden.Http.Handler.{
  Pending, calling, admit, with_runtime, authenticated, remembered, with_slot, check_request,
  write_malformed_request, identifiers_agree, key_of, verify_request,
}

module _ (env : Env) where
  -- All that is known of a request that waits for the directory.
  pub record Admitted (h : Handler) (now : Time) (req : Request) (h' : Handler) (p : Pending)
      : Type 0 where
    pub body : Text
    pub connector : p.connector_id ≡ header_get req header_connector_id
    pub known : lookup p.connector_id h.tenants ≡ some p.runtime
    pub verified : verify_request env p.runtime now req ≡ ok (p.verification, body)
    pub no_replay_storm : storm_blocked h p.connector_id replay now ≡ false
    pub fresh : (remember h.replay (key_of env p.runtime p.verification) now).1 ≡ true
    pub slot :
        acquire
          (record h { replay = (remember h.replay (key_of env p.runtime p.verification) now).0 })
          p.connector_id
        ≡ some h'
    pub no_malformed_storm : storm_blocked h' p.connector_id malformed now ≡ false
    pub decoded : env.decode_request body ≡ some p.request
    pub valid : valid_verify_password_request p.request ≡ true
    pub agree : identifiers_agree env p.runtime p.verification p.request ≡ true
    pub no_directory_storm : storm_blocked h' p.connector_id directory_error now ≡ false

  -- What the checks behind `acquire` leave.
  record Checked (h' : Handler) (runtime : TenantRuntime) (v : VerificationResult) (cid : Text)
      (now : Time) (p : Pending) : Type 0 where
    runtime_is : p.runtime ≡ runtime
    verification_is : p.verification ≡ v
    connector_is : p.connector_id ≡ cid
    valid : valid_verify_password_request p.request ≡ true
    agree : identifiers_agree env runtime v p.request ≡ true
    no_directory_storm : storm_blocked h' cid directory_error now ≡ false

  check_request-calling :
      (h : Handler) (runtime : TenantRuntime) (v : VerificationResult) (cid : Text) (now : Time)
      (o : Option VerifyPasswordRequest) (h' : Handler) (p : Pending)
      → check_request env h runtime v cid now o ≡ calling h' p
      → (h ≡ h') × (o ≡ some p.request) × Checked h runtime v cid now p
  unfolding check_request write_malformed_request
  check_request-calling h runtime v cid now none h' p e = cc
  check_request-calling h runtime v cid now (some request) h' p e = ground arith

  with_slot-calling :
      (h : Handler) (runtime : TenantRuntime) (v : VerificationResult) (body cid : Text)
      (now : Time) (o : Option Handler) (h' : Handler) (p : Pending)
      → with_slot env h runtime v body cid now o ≡ calling h' p
      → (o ≡ some h')
        × (storm_blocked h' cid malformed now ≡ false)
        × (env.decode_request body ≡ some p.request)
        × Checked h' runtime v cid now p
  unfolding with_slot
  with_slot-calling h runtime v body cid now none h' p e = cc
  with_slot-calling h runtime v body cid now (some g) h' p e =
      elim (Bool-cases (storm_blocked g cid malformed now)) [
        | inl blocked ↦ cc (rw (blocked, with_slot) at e)
        | inr quiet ↦
            let (same, decoded, checked) =
              check_request-calling g runtime v cid now (env.decode_request body) h' p
                (rw (quiet, with_slot) at e) in
            (ap some same, rw (← same) quiet, decoded, rw (← same) checked)
      ]

  authenticated-calling :
      (h : Handler) (runtime : TenantRuntime) (cid : Text) (now : Time)
      (r : Result (VerificationResult × Text)) (h' : Handler) (p : Pending)
      → authenticated env h runtime cid now r ≡ calling h' p
      → (v : VerificationResult) × (body : Text) × (r ≡ ok (v, body))
        × (storm_blocked h cid replay now ≡ false)
        × ((remember h.replay (key_of env runtime v) now).1 ≡ true)
        × (acquire (record h { replay = (remember h.replay (key_of env runtime v) now).0 }) cid
            ≡ some h')
        × (storm_blocked h' cid malformed now ≡ false)
        × (env.decode_request body ≡ some p.request)
        × Checked h' runtime v cid now p
  unfolding authenticated remembered
  authenticated-calling h runtime cid now (err body_too_large) h' p e = cc
  authenticated-calling h runtime cid now (err x) h' p e = cc
  authenticated-calling h runtime cid now (ok (v, body)) h' p e =
      elim (Bool-cases (storm_blocked h cid replay now)) [
        | inl blocked ↦ cc (rw (blocked, authenticated) at e)
        | inr quiet ↦ elim (Bool-cases (remember h.replay (key_of env runtime v) now).1) [
          | inr old ↦ cc (rw (quiet, old, authenticated, remembered) at e)
          | inl new ↦
              let g : Handler = record h {
                replay = (remember h.replay (key_of env runtime v) now).0;
              } in
              let (slot, calm, decoded, checked) =
                with_slot-calling g runtime v body cid now (acquire g cid) h' p
                  (rw (quiet, new, authenticated, remembered) at e) in
              (v, body, refl, quiet, new, slot, calm, decoded, checked)
        ]
      ]

  -- A request reaches the directory client only through every check of the handler, and holds a
  -- slot of its connector then.
  pub admit-Admitted :
      (h : Handler) (now : Time) (req : Request) (h' : Handler) (p : Pending)
      → admit env h now req ≡ calling h' p
      → Admitted h now req h' p
  unfolding admit with_runtime
  admit-Admitted h now req h' p e =
      elim (Option-cases (lookup (header_get req header_connector_id) h.tenants)) [
        | inl unknown ↦ cc (rw (unknown, admit, with_runtime) at e)
        | inr (runtime, found) ↦
            let (v, body, verified, quiet, new, slot, calm, decoded, checked) =
              authenticated-calling h runtime (header_get req header_connector_id) now
                (verify_request env runtime now req) h' p (rw (found, admit, with_runtime) at e) in
            record {
              body = body;
              connector = checked.connector_is;
              known = cc (found, checked.runtime_is, checked.connector_is);
              verified = cc (verified, checked.runtime_is, checked.verification_is);
              no_replay_storm = cc (quiet, checked.connector_is);
              fresh = rw (checked.runtime_is, checked.verification_is) new;
              slot = rw (checked.runtime_is, checked.verification_is, checked.connector_is) slot;
              no_malformed_storm = cc (calm, checked.connector_is);
              decoded = decoded;
              valid = checked.valid;
              agree = rw (checked.runtime_is, checked.verification_is) checked.agree;
              no_directory_storm = cc (checked.no_directory_storm, checked.connector_is);
            }
      ]
