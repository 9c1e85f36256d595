-- ===== src/Ldap/Parts.antt =====
-- The parts of internal/adapters/ldap/client.go on one connection stay in their frame.
use authrim_wordwarden.Prelude.{
  inl, inr, refl, Bool, true, false, not, ◌||◌, Text, text_eq, is_nil, if◌then◌else◌, arith,
  Bool-cases, Option-cases, ℤ,
}
use authrim_wordwarden.GoTime.{Duration}
use authrim_wordwarden.Ldap.{Library, Client}
use authrim_wordwarden.Ldap.Network.{
  Conn, timeout_set, bound, refused, closed, Network, Session, Outcome, done, failed, Action,
}
use authrim_wordwarden.Ldap.Errors.{normalize_ldap_error}
use authrim_wordwarden.Ldap.Connections.{
  within, set_operation_timeout, raw_bind, bind_service, bind_user, normalizing, close,
  restore_service_bind_for_reuse, service_search_available, has_pool,
}
use authrim_wordwarden.Ldap.Frame.{last_bind, Frame, Framed, Frame-refl, Frame-note, Framed-bind}

pub Framed-if {κ} :
    {S : Type κ} (conn : Conn) (b : Bool) (x y : Action S)
    → Framed conn x
    → Framed conn y
    → Framed conn (if b then x else y)
Framed-if conn true x y f g = f
Framed-if conn false x y f g = g

normalized_from {κ} :
    {S : Type κ} (c : Client) (conn : Conn) (s : Session) (r : Outcome S × Session)
    → Frame conn s r.1
    → Frame conn s
        (elim r.0 as (λ o. Outcome S × Session) [
          | done a ↦ (done a, r.1)
          | failed e ↦ (failed (normalize_ldap_error c.config e), r.1)
        ]).1
normalized_from c conn s (done a, t) f = f
normalized_from c conn s (failed e, t) f = f

pub Framed-normalizing {κ} :
    {S : Type κ} (c : Client) (conn : Conn) (part : Action S)
    → Framed conn part
    → Framed conn (normalizing c part)
unfolding normalizing
Framed-normalizing c conn part f s = normalized_from c conn s (part s) (f s)

pub Framed-close : (conn : Conn) (s : Session) → Frame conn s (close conn s)
unfolding close last_bind
Framed-close conn s = Frame-note conn (closed conn) s (λ d differs. ground arith)

module _ (lib : Library) (net : Network) (c : Client) where
  pub Framed-set_operation_timeout :
      (conn : Conn) (value : ℤ) (fallback : Duration)
      → Framed conn (set_operation_timeout lib net c conn value fallback)
  unfolding set_operation_timeout within last_bind
  Framed-set_operation_timeout conn value fallback =
      Framed-bind conn _ _ (λ s. Frame-refl conn s)
        λ timeout t. Frame-note conn (timeout_set conn timeout) t (λ d differs. refl)

  Framed-raw_bind :
      (conn : Conn) (name password : Text) → Framed conn (raw_bind lib net c conn name password)
  unfolding raw_bind
  Framed-raw_bind conn name password s = elim (Option-cases (net.bind s.log conn name password)) [
    | inl e ↦
        rw (e, raw_bind)
          (Frame-note conn (bound conn name password) s
            (λ d differs. unfold last_bind in ground arith))
    | inr (f, e) ↦
        rw (e, raw_bind)
          (Frame-note conn (refused conn name password) s
            (λ d differs. unfold last_bind in ground arith))
  ]

  pub Framed-bind_service : (conn : Conn) → Framed conn (bind_service lib net c conn)
  unfolding bind_service
  Framed-bind_service conn =
      Framed-bind conn _ _ (Framed-set_operation_timeout conn _ _)
        λ timeout. Framed-normalizing c conn _ (Framed-raw_bind conn _ _)

  pub Framed-bind_user :
      (conn : Conn) (name password : Text) → Framed conn (bind_user lib net c conn name password)
  unfolding bind_user
  Framed-bind_user conn name password = elim (Bool-cases (is_nil password)) [
    | inl empty ↦ rw empty (λ s. Frame-refl conn s)
    | inr given ↦ rw given (
        Framed-bind conn _ _ (Framed-set_operation_timeout conn _ _)
          λ timeout. Framed-normalizing c conn _ (Framed-raw_bind conn _ _))
  ]

  pub Framed-restore : (conn : Conn) → Framed conn (restore_service_bind_for_reuse lib net c conn)
  unfolding restore_service_bind_for_reuse
  Framed-restore conn = elim (Bool-cases (not (has_pool c) || not (service_search_available c))) [
    | inl useless ↦ rw useless (λ s. Frame-refl conn s)
    | inr useful ↦ rw useful (Framed-bind_service conn)
  ]
