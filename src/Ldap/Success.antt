-- ===== src/Ldap/Success.antt =====
-- What a success of each way of looking users up rests on, of internal/adapters/ldap/client.go.
use authrim_wordwarden.Prelude.{
  ◌≡◌, inl, inr, refl, [], ◌∷◌, Text, text_eq, text_iff, ◌==◌, lit, Bool-cases,
}
use authrim_wordwarden.Ldap.{Library, Client}
use authrim_wordwarden.Ldap.Network.{
  Conn, Network, Session, Outcome, done, failed, Action, ◌>>=◌, attempt,
}
use authrim_wordwarden.Ldap.Connections.{bind_service, bind_user}
use authrim_wordwarden.Ldap.Search.{search}
use authrim_wordwarden.Ldap.Frame.{Framed-attempt}
use authrim_wordwarden.Ldap.Parts.{Framed-bind_service}
use authrim_wordwarden.Ldap.Verify.{
  resolve_user_with_attributes, ResolvedUser, subject_id, lookup_mode, Verdict, on_bind, succeed_as,
  bind_resolved, succeed_resolved, verify_search_then_bind, verify_dn_template, verify_direct_bind,
  verify_on,
}
use authrim_wordwarden.Ldap.Resolving.{
  Framed-resolve_user, Framed-resolve_attributes, Framed-resolve_direct_bind_user,
}
use authrim_wordwarden.Directory.{
  VerifyPasswordRequest, VerifyPasswordResult, successful_verification,
}
use authrim_wordwarden.Ldap.Verdicts.{verdict_not_success, resolution_not_success}
use authrim_wordwarden.Ldap.Backing.{
  Backs, Backs-bind, backed_verdict, Confirms, Confirms-bind, Confirms-verdict, Confirms-succeed,
  Backs-user, NameOf, Claim,
}

module _ (lib : Library) (net : Network) (c : Client) (conn : Conn) (username : Text)
    (request : VerifyPasswordRequest) where
  abbrev NameHere : Text → VerifyPasswordResult → Type 0
  NameHere = NameOf lib net c username request.attribute_names

  Backs-on_bind :
      (P : Claim) (name : Text) (next : Action Verdict)
      → Confirms P conn name next
      → Backs P conn request.password
          (attempt (bind_user lib net c conn name request.password) >>= on_bind lib net c next)
  unfolding on_bind
  Backs-on_bind P name next f =
      Backs-user lib net c P conn name request.password (on_bind lib net c next) f
        λ e. backed_verdict P conn request.password _ e (verdict_not_success e)

  Backs-bind_resolved :
      (t : Session) (user : Outcome ResolvedUser)
      → lookup_mode c ≡ lit "search_then_bind"
      → (attempt (resolve_user_with_attributes lib net c conn username request.attribute_names) t).0
        ≡ done user
      → Backs NameHere conn request.password (bind_resolved lib net c conn username request user)
  unfolding bind_resolved attempt succeed_as successful_verification
  Backs-bind_resolved t (failed e) mode h =
      backed_verdict NameHere conn request.password _ e (resolution_not_success e)
  Backs-bind_resolved t (done user) mode h = Backs-on_bind NameHere user.dn _ (
      Confirms-succeed lib net c NameHere conn user.dn (subject_id user) username user.attributes
        (user.group_facts ∷ []) (refl, inl (mode, (user, conn, t, cc h, refl, refl))))

  pub Backs-search_then_bind :
      lookup_mode c ≡ lit "search_then_bind"
      → Backs NameHere conn request.password
          (verify_search_then_bind lib net c conn username request)
  unfolding verify_search_then_bind
  Backs-search_then_bind mode =
      Backs-bind NameHere conn request.password _ _ (Framed-bind_service lib net c conn) λ s ok e.
        Backs-bind NameHere conn request.password _ _
          (Framed-attempt conn _ (Framed-resolve_user lib net c conn username _))
          (λ t user h. Backs-bind_resolved t user mode h _) (bind_service lib net c conn s).1

  pub Backs-dn_template :
      lookup_mode c ≡ lit "dn_template"
      → Backs NameHere conn request.password (verify_dn_template lib net c conn username request)
  unfolding verify_dn_template successful_verification
  Backs-dn_template mode = Backs-on_bind NameHere _ _ (
      Confirms-bind NameHere conn _ _ _ (Framed-resolve_attributes lib net c conn _ username _)
        λ attributes.
          Confirms-succeed lib net c NameHere conn _ _ username attributes []
            (refl, inr (inl (mode, refl, refl))))

  Confirms-succeed_resolved :
      lookup_mode c ≡ lit "direct_bind"
      → (user : Outcome ResolvedUser)
      → Confirms NameHere conn username (succeed_resolved lib net c conn username user)
  unfolding succeed_resolved succeed_as successful_verification
  Confirms-succeed_resolved mode (failed e) =
      Confirms-verdict NameHere conn username _ e (resolution_not_success e)
  Confirms-succeed_resolved mode (done user) =
      Confirms-succeed lib net c NameHere conn username _ username _ _
        (refl, inr (inr (mode, refl)))

  pub Backs-direct_bind :
      lookup_mode c ≡ lit "direct_bind"
      → Backs NameHere conn request.password (verify_direct_bind lib net c conn username request)
  unfolding verify_direct_bind
  Backs-direct_bind mode = Backs-on_bind NameHere username _ (
      Confirms-bind NameHere conn username _ _
        (Framed-attempt conn _ (Framed-resolve_direct_bind_user lib net c conn username _))
        (Confirms-succeed_resolved mode))

  pub Backs-verify_on :
      Backs NameHere conn request.password (verify_on lib net c conn username request)
  unfolding verify_on
  Backs-verify_on s = elim (Bool-cases (lookup_mode c == lit "search_then_bind")) [
    | inl search ↦ rw (search, verify_on) (Backs-search_then_bind ((text_iff _ _).0 search) s)
    | inr no_search ↦ elim (Bool-cases (lookup_mode c == lit "dn_template")) [
      | inl template ↦
          rw (no_search, template, verify_on) (Backs-dn_template ((text_iff _ _).0 template) s)
      | inr no_template ↦ elim (Bool-cases (lookup_mode c == lit "direct_bind")) [
        | inl direct ↦
            rw (no_search, no_template, direct, verify_on)
              (Backs-direct_bind ((text_iff _ _).0 direct) s)
        | inr unknown ↦ rw (no_search, no_template, unknown, verify_on) tt
      ]
    ]
  ]
