-- ===== src/Ldap/Backing.antt =====
-- A success of internal/adapters/ldap/client.go rests on a bind that the directory accepted.
use authrim_wordwarden.Prelude.{
  ◌≡◌, ◌⊎◌, inl, inr, refl, subst, true, false, List, [], ◌∷◌, Option, none, some, Text, text_eq,
  lit, is_nil, arith, Bool-cases, Option-cases,
}
use authrim_wordwarden.GoTime.{Duration}
use authrim_wordwarden.Directory.{
  GroupFact, VerifyPasswordResult, is_success, successful_verification,
}
use authrim_wordwarden.Ldap.{Library, Client}
use authrim_wordwarden.Ldap.Network.{
  Conn, Failure, bound, Network, Session, Outcome, done, failed, Action, ◌>>=◌, attempt,
}
use authrim_wordwarden.Ldap.Connections.{raw_bind, bind_user, normalizing}
use authrim_wordwarden.Ldap.Frame.{
  Frame, Framed, Frame-refl, Frame-trans, Does, Does-after, Does-before,
}
use authrim_wordwarden.Ldap.Parts.{Framed-set_operation_timeout, Framed-bind_user, Framed-restore}
use authrim_wordwarden.Ldap.Verify.{
  resolve_user_with_attributes, ResolvedUser, subject_id, lookup_mode, verdict_or, Verdict,
  not_reusable, user_dn_from_template, succeed,
}

-- What a result claims of the name that was bound, given the name and the result.
abbrev pub Claim : Type 1
Claim = Text → VerifyPasswordResult → Type 0

-- A success rests on a bind of a claimed name with the password, on the connection, since `s`.
abbrev pub IsBacked : Claim → Conn → Text → Session → Outcome Verdict × Session → Type 0
IsBacked P conn password s (failed e, t) = Unit
IsBacked P conn password s (done (v, reuse), t) =
    is_success v ≡ true → (name : Text) × P name v × Does (bound conn name password) s t

abbrev pub Backs : Claim → Conn → Text → Action Verdict → Type 0
Backs P conn password part = (s : Session) → IsBacked P conn password s (part s)

pub IsBacked-later :
    (P : Claim) (conn : Conn) (password : Text) (s t : Session) (r : Outcome Verdict × Session)
    → Frame conn s t
    → IsBacked P conn password t r
    → IsBacked P conn password s r
IsBacked-later P conn password s t (failed e, u) f b = tt
IsBacked-later P conn password s t (done (v, reuse), u) f b =
    λ success. let (name, claim, made) = b success in (name, claim, Does-after f made)

IsBacked-from {κ} :
    {S : Type κ} (P : Claim) (conn : Conn) (password : Text) (s : Session) (r : Outcome S × Session)
    (next : S → Action Verdict)
    → Frame conn s r.1
    → ((a : S) (t : Session) → r.0 ≡ done a → r.1 ≡ t → IsBacked P conn password t (next a t))
    → IsBacked P conn password s (elim r.0 as (λ o. Outcome Verdict × Session) [
      | done a ↦ next a r.1
      | failed e ↦ (failed e, r.1)
    ])
IsBacked-from P conn password s (done a, t) next f g =
    IsBacked-later P conn password s t (next a t) f (g a t refl refl)
IsBacked-from P conn password s (failed e, t) next f g = tt

-- What is known of the first part's value goes on to the next part.
pub Backs-bind {κ} :
    {S : Type κ} (P : Claim) (conn : Conn) (password : Text) (part : Action S)
    (next : S → Action Verdict)
    → Framed conn part
    → ((s : Session) (a : S)
        → (part s).0 ≡ done a
        → IsBacked P conn password (part s).1 (next a (part s).1))
    → Backs P conn password (part >>= next)
unfolding ◌>>=◌
Backs-bind P conn password part next f g s =
    IsBacked-from P conn password s (part s) next (f s)
      λ a t e same. subst (λ u. IsBacked P conn password u (next a u)) same (g s a e)

-- A part that fails or gives a verdict that is no success needs no bind.
pub backed_verdict :
    (P : Claim) (conn : Conn) (password : Text) (r : Option VerifyPasswordResult) (e : Failure)
    → ((v : VerifyPasswordResult) → r ≡ some v → is_success v ≡ false)
    → Backs P conn password (verdict_or r not_reusable e)
backed_verdict P conn password none e h s = tt
backed_verdict P conn password (some v) e h s = λ success. absurd (ground (arith, h v refl))

abbrev pub Claims : Claim → Text → Outcome Verdict × Session → Type 0
Claims P name (failed e, t) = Unit
Claims P name (done (v, reuse), t) = is_success v ≡ true → P name v

-- A part that stays in its frame, and whose success makes the claim of the name.
abbrev pub Confirms : Claim → Conn → Text → Action Verdict → Type 0
Confirms P conn name part = (s : Session) → Frame conn s (part s).1 × Claims P name (part s)

Confirms-from {κ} :
    {S : Type κ} (P : Claim) (conn : Conn) (name : Text) (s : Session) (r : Outcome S × Session)
    (next : S → Action Verdict)
    → Frame conn s r.1
    → ((a : S) → Confirms P conn name (next a))
    → let o : Outcome Verdict × Session = elim r.0 [
      | done a ↦ next a r.1
      | failed e ↦ (failed e, r.1)
    ] in
      Frame conn s o.1 × Claims P name o
Confirms-from P conn name s (done a, t) next f g = let (h, n) = g a t in (Frame-trans f h, n)
Confirms-from P conn name s (failed e, t) next f g = (f, tt)

pub Confirms-bind {κ} :
    {S : Type κ} (P : Claim) (conn : Conn) (name : Text) (part : Action S)
    (next : S → Action Verdict)
    → Framed conn part
    → ((a : S) → Confirms P conn name (next a))
    → Confirms P conn name (part >>= next)
unfolding ◌>>=◌
Confirms-bind P conn name part next f g s = Confirms-from P conn name s (part s) next (f s) g

pub Confirms-verdict :
    (P : Claim) (conn : Conn) (name : Text) (r : Option VerifyPasswordResult) (e : Failure)
    → ((v : VerifyPasswordResult) → r ≡ some v → is_success v ≡ false)
    → Confirms P conn name (verdict_or r not_reusable e)
Confirms-verdict P conn name none e h s = (Frame-refl conn s, tt)
Confirms-verdict P conn name (some v) e h s =
    (Frame-refl conn s, λ success. absurd (ground (arith, h v refl)))

IsBacked-by :
    (P : Claim) (conn : Conn) (name password : Text) (s t : Session) (r : Outcome Verdict × Session)
    → Does (bound conn name password) s t
    → Frame conn t r.1
    → Claims P name r
    → IsBacked P conn password s r
IsBacked-by P conn name password s t (failed e, u) d f n = tt
IsBacked-by P conn name password s t (done (v, reuse), u) d f n =
    λ success. (name, n success, Does-before d f)

IsBacked-behind :
    (P : Claim) (conn : Conn) (name password : Text) (s : Session)
    (r : Outcome (Unit {0}) × Session) (next : Outcome (Unit {0}) → Action Verdict)
    → Frame conn s r.1
    → (r.0 ≡ done tt → Does (bound conn name password) s r.1)
    → Confirms P conn name (next (done tt))
    → ((e : Failure) → Backs P conn password (next (failed e)))
    → IsBacked P conn password s (next r.0 r.1)
IsBacked-behind P conn name password s (done ok, t) next f d g h =
    let (frame, n) = g t in IsBacked-by P conn name password s t _ (d refl) frame n
IsBacked-behind P conn name password s (failed e, t) next f d g h =
    IsBacked-later P conn password s t _ f (h e t)

-- A success that comes behind the bind of a claimed name.
module _ (lib : Library) (net : Network) (c : Client) where
  bound_raw :
      (conn : Conn) (name password : Text) (s : Session)
      → (normalizing c (raw_bind lib net c conn name password) s).0 ≡ done tt
      → Does
          (bound conn name password)
          s
          (normalizing c (raw_bind lib net c conn name password) s).1
  unfolding normalizing raw_bind
  bound_raw conn name password s h = elim (Option-cases (net.bind s.log conn name password)) [
    | inl e ↦
        rw (e, normalizing, raw_bind)
          (record {
            new = bound conn name password ∷ [];
            grows = ground (arith, e);
            made = inl refl;
          })
    | inr (x, e) ↦ absurd (cc (rw (e, normalizing, raw_bind) at h))
  ]

  bound_from :
      (conn : Conn) (name password : Text) (s : Session) (r : Outcome Duration × Session)
      → Frame conn s r.1
      → let o : Outcome (Unit {0}) × Session = elim r.0 [
        | done a ↦ normalizing c (raw_bind lib net c conn name password) r.1
        | failed e ↦ (failed e, r.1)
      ] in
        o.0 ≡ done tt → Does (bound conn name password) s o.1
  bound_from conn name password s (done a, t) f h = Does-after f (bound_raw conn name password t h)
  bound_from conn name password s (failed e, t) f h = absurd (cc h)

  pub bind_user_bound :
      (conn : Conn) (name password : Text) (s : Session)
      → (bind_user lib net c conn name password s).0 ≡ done tt
      → Does (bound conn name password) s (bind_user lib net c conn name password s).1
  unfolding bind_user ◌>>=◌
  bind_user_bound conn name password s h = elim (Bool-cases (is_nil password)) [
    | inl empty ↦ absurd (cc (rw (empty, bind_user) at h))
    | inr given ↦
        rw (given, bind_user)
          (bound_from conn name password s _ (Framed-set_operation_timeout lib net c conn _ _ s)
            (rw (given, bind_user) at h))
  ]

  -- What a success claims of the name, by the way of looking users up.
  abbrev pub NameOf : Text → List Text → Claim
  NameOf username requested name v =
      (v.subject.username ≡ username)
      × (((lookup_mode c ≡ lit "search_then_bind")
            × ((user : ResolvedUser) × (conn : Conn) × (a : Session)
                × ((resolve_user_with_attributes lib net c conn username requested a).0 ≡ done user)
                × (name ≡ user.dn)
                × (v.subject.directory_id ≡ subject_id user)))
          ⊎ (((lookup_mode c ≡ lit "dn_template")
                × (name ≡ user_dn_from_template lib net c username)
                × (v.subject.directory_id ≡ name))
              ⊎ ((lookup_mode c ≡ lit "direct_bind") × (name ≡ username))))

  pub Confirms-succeed :
      (P : Claim) (conn : Conn) (name id username : Text) (attributes : List (Text × List Text))
      (facts : List (List GroupFact))
      → P name (
          successful_verification
            (record { directory_id = id; username = username })
            attributes
            facts)
      → Confirms P conn name (succeed lib net c conn id username attributes facts)
  unfolding succeed ◌>>=◌ attempt
  Confirms-succeed P conn name id username attributes facts p s =
      (Framed-restore lib net c conn s, λ success. p)

  pub Backs-user :
      (P : Claim) (conn : Conn) (name password : Text) (next : Outcome (Unit {0}) → Action Verdict)
      → Confirms P conn name (next (done tt))
      → ((e : Failure) → Backs P conn password (next (failed e)))
      → Backs P conn password (attempt (bind_user lib net c conn name password) >>= next)
  unfolding ◌>>=◌ attempt
  Backs-user P conn name password next g h s =
      IsBacked-behind P conn name password s (bind_user lib net c conn name password s) next
        (Framed-bind_user lib net c conn name password s) (bind_user_bound conn name password s) g h
