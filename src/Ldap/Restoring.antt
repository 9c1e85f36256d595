-- ===== src/Ldap/Restoring.antt =====
-- A connection that internal/adapters/ldap/client.go may use again has the service's identity.
use authrim_wordwarden.Prelude.{
  ◌≡◌, inl, inr, Bool, true, false, not, ◌||◌, List, Option, none, some, Text, text_eq,
  if◌then◌else◌, arith, Bool-cases, Option-cases,
}
use authrim_wordwarden.GoTime.{Duration}
use authrim_wordwarden.Directory.{
  GroupFact, VerifyPasswordRequest, VerifyPasswordResult, successful_verification,
}
use authrim_wordwarden.Ldap.{Library, Client}
use authrim_wordwarden.Ldap.Network.{
  Conn, Failure, Network, Session, Outcome, done, failed, Action, ◌>>=◌, attempt,
}
use authrim_wordwarden.Ldap.Connections.{
  raw_bind, bind_service, bind_user, normalizing, restore_service_bind_for_reuse,
  service_search_available, has_pool,
}
use authrim_wordwarden.Ldap.Frame.{
  last_bind, Frame, Framed, Frame-refl, Frame-trans, Framed-attempt,
}
use authrim_wordwarden.Ldap.Parts.{Framed-bind_service, Framed-bind_user, Framed-restore}
use authrim_wordwarden.Ldap.Resolving.{
  Framed-resolve_user, Framed-resolve_attributes, Framed-resolve_direct_bind_user,
}
use authrim_wordwarden.Ldap.Verify.{
  ResolvedUser, verdict_or, Verdict, not_reusable, is_done, succeed, on_bind, succeed_as,
  bind_resolved, succeed_resolved, verify_search_then_bind, verify_dn_template, verify_direct_bind,
  verify_on,
}

-- The identity of the connector's own account.
abbrev pub service : Client → Option (Text × Text)
service c = some (c.config.bind_dn, c.bind_password)

abbrev pub IsRestored : Client → Conn → Outcome Verdict × Session → Type 0
IsRestored c conn (done (v, true), t) = last_bind conn t.log ≡ service c
IsRestored c conn (done (v, false), t) = Unit
IsRestored c conn (failed e, t) = Unit

-- A part that stays in its frame, and says truly whether its connection may be used again.
abbrev pub Restores : Client → Conn → Action Verdict → Type 0
Restores c conn part = (s : Session) → Frame conn s (part s).1 × IsRestored c conn (part s)

Restores-from {κ} :
    {S : Type κ} (c : Client) (conn : Conn) (s : Session) (r : Outcome S × Session)
    (next : S → Action Verdict)
    → Frame conn s r.1
    → ((a : S) → Restores c conn (next a))
    → let o : Outcome Verdict × Session = elim r.0 [
      | done a ↦ next a r.1
      | failed e ↦ (failed e, r.1)
    ] in
      Frame conn s o.1 × IsRestored c conn o
Restores-from c conn s (done a, t) next f g = let (h, n) = g a t in (Frame-trans f h, n)
Restores-from c conn s (failed e, t) next f g = (f, tt)

Restores-bind {κ} :
    {S : Type κ} (c : Client) (conn : Conn) (part : Action S) (next : S → Action Verdict)
    → Framed conn part
    → ((a : S) → Restores c conn (next a))
    → Restores c conn (part >>= next)
unfolding ◌>>=◌
Restores-bind c conn part next f g s = Restores-from c conn s (part s) next (f s) g

Restores-cases {κ} :
    {S : Type κ} (c : Client) (conn : Conn) (o : Outcome S) (f : S → Action Verdict)
    (g : Failure → Action Verdict)
    → ((a : S) → Restores c conn (f a))
    → ((e : Failure) → Restores c conn (g e))
    → Restores c conn (elim o as (λ x. Action Verdict) [ done a ↦ f a | failed e ↦ g e ])
Restores-cases c conn (done a) f g h k = h a
Restores-cases c conn (failed e) f g h k = k e

Restores-verdict_or :
    (c : Client) (conn : Conn) (r : Option VerifyPasswordResult) (e : Failure)
    → Restores c conn (verdict_or r not_reusable e)
Restores-verdict_or c conn none e s = (Frame-refl conn s, tt)
Restores-verdict_or c conn (some r) e s = (Frame-refl conn s, tt)

abbrev IsIdentified : Client → Conn → Outcome (Unit {0}) × Session → Type 0
IsIdentified c conn (done ok, t) = last_bind conn t.log ≡ service c
IsIdentified c conn (failed e, t) = Unit

module _ (lib : Library) (net : Network) (c : Client) where
  IsIdentified-bind :
      (conn : Conn) (s : Session)
      → IsIdentified c conn
          (normalizing c (raw_bind lib net c conn c.config.bind_dn c.bind_password) s)
  unfolding raw_bind last_bind normalizing
  IsIdentified-bind conn s =
      elim (Option-cases (net.bind s.log conn c.config.bind_dn c.bind_password)) [
        | inl e ↦ rw (e, raw_bind, normalizing) (ground arith)
        | inr (x, e) ↦ rw (e, raw_bind, normalizing) tt
      ]

  IsIdentified-from :
      (conn : Conn) (s : Session) (r : Outcome Duration × Session)
      → IsIdentified c conn (elim r.0 as (λ o. Outcome (Unit {0}) × Session) [
        | done a ↦ normalizing c (raw_bind lib net c conn c.config.bind_dn c.bind_password) r.1
        | failed e ↦ (failed e, r.1)
      ])
  IsIdentified-from conn s (done a, t) = IsIdentified-bind conn t
  IsIdentified-from conn s (failed e, t) = tt

  pub bind_service-IsIdentified :
      (conn : Conn) (s : Session) → IsIdentified c conn (bind_service lib net c conn s)
  unfolding bind_service ◌>>=◌
  bind_service-IsIdentified conn s = IsIdentified-from conn s _

  restore-IsIdentified :
      (conn : Conn) (s : Session)
      → IsIdentified c conn (restore_service_bind_for_reuse lib net c conn s)
  unfolding restore_service_bind_for_reuse
  restore-IsIdentified conn s =
      elim (Bool-cases (not (has_pool c) || not (service_search_available c))) [
        | inl useless ↦ rw useless tt
        | inr useful ↦ rw useful (bind_service-IsIdentified conn s)
      ]

  succeeded_from :
      (conn : Conn) (s : Session) (v : VerifyPasswordResult) (r : Outcome (Unit {0}) × Session)
      → Frame conn s r.1
      → IsIdentified c conn r
      → Frame conn s r.1 × IsRestored c conn (done (v, is_done r.0), r.1)
  succeeded_from conn s v (done ok, t) f i = (f, i)
  succeeded_from conn s v (failed e, t) f i = (f, tt)

  pub Restores-succeed :
      (conn : Conn) (id username : Text) (attributes : List (Text × List Text))
      (facts : List (List GroupFact))
      → Restores c conn (succeed lib net c conn id username attributes facts)
  unfolding succeed ◌>>=◌ attempt
  Restores-succeed conn id username attributes facts s =
      succeeded_from conn s
        (successful_verification (record { directory_id = id; username = username }) attributes
          facts)
        (restore_service_bind_for_reuse lib net c conn s) (Framed-restore lib net c conn s)
        (restore-IsIdentified conn s)

  Restores-if :
      (conn : Conn) (b : Bool) (x y : Action Verdict)
      → Restores c conn x
      → Restores c conn y
      → Restores c conn (if b then x else y)
  Restores-if conn true x y f g = f
  Restores-if conn false x y f g = g

  Restores-on_bind :
      (conn : Conn) (next : Action Verdict) (b : Outcome (Unit {0}))
      → Restores c conn next
      → Restores c conn (on_bind lib net c next b)
  unfolding on_bind
  Restores-on_bind conn next (failed e) f = Restores-verdict_or c conn _ e
  Restores-on_bind conn next (done ok) f = f

  Restores-bind_user :
      (conn : Conn) (name password : Text) (next : Action Verdict)
      → Restores c conn next
      → Restores c conn
          (attempt (bind_user lib net c conn name password) >>= on_bind lib net c next)
  Restores-bind_user conn name password next f =
      Restores-bind c conn _ _
        (Framed-attempt conn _ (Framed-bind_user lib net c conn name password))
        λ b. Restores-on_bind conn next b f

  Restores-bind_resolved :
      (conn : Conn) (username : Text) (request : VerifyPasswordRequest)
      (user : Outcome ResolvedUser)
      → Restores c conn (bind_resolved lib net c conn username request user)
  unfolding bind_resolved succeed_as
  Restores-bind_resolved conn username request (failed e) = Restores-verdict_or c conn _ e
  Restores-bind_resolved conn username request (done user) =
      Restores-bind_user conn _ _ _ (Restores-succeed conn _ _ _ _)

  Restores-search_then_bind :
      (conn : Conn) (username : Text) (request : VerifyPasswordRequest)
      → Restores c conn (verify_search_then_bind lib net c conn username request)
  unfolding verify_search_then_bind
  Restores-search_then_bind conn username request =
      Restores-bind c conn _ _ (Framed-bind_service lib net c conn) λ ok.
        Restores-bind c conn _ _
          (Framed-attempt conn _ (Framed-resolve_user lib net c conn username _))
          (Restores-bind_resolved conn username request)

  Restores-dn_template :
      (conn : Conn) (username : Text) (request : VerifyPasswordRequest)
      → Restores c conn (verify_dn_template lib net c conn username request)
  unfolding verify_dn_template
  Restores-dn_template conn username request = Restores-bind_user conn _ _ _ (
      Restores-bind c conn _ _ (Framed-resolve_attributes lib net c conn _ username _)
        λ attributes. Restores-succeed conn _ _ _ _)

  Restores-succeed_resolved :
      (conn : Conn) (username : Text) (user : Outcome ResolvedUser)
      → Restores c conn (succeed_resolved lib net c conn username user)
  unfolding succeed_resolved succeed_as
  Restores-succeed_resolved conn username (failed e) = Restores-verdict_or c conn _ e
  Restores-succeed_resolved conn username (done user) = Restores-succeed conn _ _ _ _

  Restores-direct_bind :
      (conn : Conn) (username : Text) (request : VerifyPasswordRequest)
      → Restores c conn (verify_direct_bind lib net c conn username request)
  unfolding verify_direct_bind
  Restores-direct_bind conn username request = Restores-bind_user conn _ _ _ (
      Restores-bind c conn _ _
        (Framed-attempt conn _ (Framed-resolve_direct_bind_user lib net c conn username _))
        (Restores-succeed_resolved conn username))

  pub Restores-verify_on :
      (conn : Conn) (username : Text) (request : VerifyPasswordRequest)
      → Restores c conn (verify_on lib net c conn username request)
  unfolding verify_on
  Restores-verify_on conn username request =
      Restores-if conn _ _ _ (Restores-search_then_bind conn username request) (
        Restores-if conn _ _ _ (Restores-dn_template conn username request) (
          Restores-if conn _ _ _ (Restores-direct_bind conn username request)
            λ s. (Frame-refl conn s, tt)))
