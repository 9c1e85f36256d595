-- ===== src/Ldap/Sessions.antt =====
-- Whole calls of `VerifyPassword` of internal/adapters/ldap/client.go.
use authrim_wordwarden.Prelude.{
  ◌≡◌, ◌≢◌, ◌⊎◌, inl, inr, refl, ap, ◌∙◌, Bool, true, false, ◌&&◌, List, [], ◌∷◌, ◌++◌, Text,
  text_eq, is_nil, ltb, arith, Bool-cases, length, sym, append_assoc, subst,
}
use authrim_wordwarden.Ldap.{Library, Client}
use authrim_wordwarden.Ldap.Network.{
  Conn, Event, bound, closed, Network, Session, Outcome, done, failed, ◌>>=◌,
}
use authrim_wordwarden.Ldap.Connections.{close, has_pool, capacity, put_idle, release_conn}
use authrim_wordwarden.Ldap.Frame.{Has-append, Has-append_right, Frame, Does}
use authrim_wordwarden.Directory.{
  VerifyPasswordRequest, VerifyPasswordResult, is_success, failed_verification,
  reason_invalid_credentials,
}
use authrim_wordwarden.Ldap.Verify.{Verdict, verify_and_release, verify_password}
use authrim_wordwarden.Directory.Verdicts.{refusals}
use authrim_wordwarden.Username.{UsernameError, preprocess, Preprocessed, accepted, rejected}
use authrim_wordwarden.Ldap.Restoring.{IsRestored, Restores-verify_on}
use authrim_wordwarden.Ldap.Backing.{NameOf, IsBacked}
use authrim_wordwarden.Ldap.Success.{Backs-verify_on}
use authrim_wordwarden.Ldap.Pooling.{IsSound, IsFree, IsSound-on, IsFree-on, release-IsSound}
use authrim_wordwarden.Ldap.Acquiring.{Grows, IsAcquired, Acquires-acquire_conn}

-- The session of a new client.
abbrev pub new_session : Session
new_session = record { log = []; next = 0; idle = [] }

Grows-release :
    (c : Client) (conn : Conn) (reusable : Bool) (s : Session)
    → Grows s (release_conn c conn reusable s)
unfolding release_conn put_idle close
Grows-release c conn reusable s = elim (Bool-cases (reusable && has_pool c)) [
  | inr lost ↦ rw (lost, release_conn) (record { new = closed conn ∷ []; grows = refl })
  | inl kept ↦ elim (Bool-cases (ltb (length s.idle) (capacity c.config.pool.max_idle))) [
    | inr full ↦
        rw (kept, full, release_conn, put_idle) (record { new = closed conn ∷ []; grows = refl })
    | inl room ↦ rw (kept, room, release_conn, put_idle) (record { new = []; grows = refl })
  ]
]

-- A call stays made as calls are added before it and behind it.
Does-after : {e : Event} {s t u : Session} → Grows s t → Does e t u → Does e s u
Does-after {e} {s} f d = record {
  new = d.new ++ f.new;
  grows = d.grows ∙ (ap (λ l. d.new ++ l) f.grows ∙ sym (append_assoc d.new f.new s.log));
  made = Has-append e d.new f.new d.made;
}

Does-before : {e : Event} {s t u : Session} → Does e s t → Grows t u → Does e s u
Does-before {e} {s} d f = record {
  new = f.new ++ d.new;
  grows = f.grows ∙ (ap (λ l. f.new ++ l) d.grows ∙ sym (append_assoc f.new d.new s.log));
  made = Has-append_right e f.new d.new d.made;
}

-- What a success rests on: the password is not empty, the user name is accepted, and since `s` the
-- directory has accepted a bind with the password, of the name that the way of looking users up
-- gives.
pub record IsProven (lib : Library) (net : Network) (c : Client) (request : VerifyPasswordRequest)
    (s t : Session) (v : VerifyPasswordResult) : Type 0 where
  pub given : request.password ≢ []
  pub username : Text
  pub format : Text
  pub preprocessed :
      preprocess lib.unicode lib.nfkc request.username c.config.username ≡ accepted username format
  pub conn : Conn
  pub name : Text
  pub name_is : NameOf lib net c username request.attribute_names name v
  pub made : Does (bound conn name request.password) s t

Preprocessed-cases :
    (p : Preprocessed)
    → ((username : Text) × (format : Text) × (p ≡ accepted username format))
      ⊎ ((e : UsernameError) × (p ≡ rejected e))
Preprocessed-cases (accepted username format) = inl (username, format, refl)
Preprocessed-cases (rejected e) = inr (e, refl)

module _ (lib : Library) (net : Network) (c : Client) where
  -- Behind the release of the connection.
  IsProven-behind :
      (conn : Conn) (request : VerifyPasswordRequest) (username format : Text) (s t : Session)
      (r : Outcome Verdict × Session) (v : VerifyPasswordResult)
      → request.password ≢ []
      → preprocess lib.unicode lib.nfkc request.username c.config.username
        ≡ accepted username format
      → Grows s t
      → IsBacked (NameOf lib net c username request.attribute_names) conn request.password t r
      → let o : Outcome VerifyPasswordResult × Session = elim r.0 [
        | failed e ↦ (failed e, release_conn c conn false r.1)
        | done w ↦ (done w.0, release_conn c conn w.1 r.1)
      ] in
        o.0 ≡ done v → is_success v ≡ true → IsProven lib net c request s o.1 v
  IsProven-behind conn request username format s t (failed e, u) v given pre g b h success =
      absurd (cc h)
  IsProven-behind conn request username format s t (done (w, reuse), u) v given pre g b h success =
      let same : w ≡ v = cc h in
      let (name, claim, made) = b (ap is_success same ∙ success) in
      record {
        given = given;
        username = username;
        format = format;
        preprocessed = pre;
        conn = conn;
        name = name;
        name_is = subst (NameOf lib net c username request.attribute_names name) same claim;
        made = Does-before (Does-after g made) (Grows-release c conn reuse u);
      }

  -- Behind the acquisition.
  IsProven-from :
      (request : VerifyPasswordRequest) (username format : Text) (s : Session)
      (r : Outcome Conn × Session) (v : VerifyPasswordResult)
      → request.password ≢ []
      → preprocess lib.unicode lib.nfkc request.username c.config.username
        ≡ accepted username format
      → Grows s r.1
      → let o : Outcome VerifyPasswordResult × Session = elim r.0 [
        | done conn ↦ verify_and_release lib net c conn username request r.1
        | failed e ↦ (failed e, r.1)
      ] in
        o.0 ≡ done v → is_success v ≡ true → IsProven lib net c request s o.1 v
  unfolding verify_and_release
  IsProven-from request username format s (failed e, t) v given pre g = λ h success. absurd (cc h)
  IsProven-from request username format s (done conn, t) v given pre g =
      IsProven-behind conn request username format s t _ v given pre g
        (Backs-verify_on lib net c conn username request t)

  IsSound-behind :
      (conn : Conn) (t : Session) (r : Outcome Verdict × Session)
      → IsSound c t
      → IsFree conn t
      → Frame conn t r.1
      → IsRestored c conn r
      → IsSound c
          (elim r.0 as (λ o. Outcome VerifyPasswordResult × Session) [
            | failed e ↦ (failed e, release_conn c conn false r.1)
            | done w ↦ (done w.0, release_conn c conn w.1 r.1)
          ]).1
  IsSound-behind conn t (failed e, u) h free f i =
      release-IsSound c conn false u (IsFree-on conn t u f free) (IsSound-on c conn t u f free.1 h)
        λ x. absurd (cc x)
  IsSound-behind conn t (done (v, true), u) h free f i =
      release-IsSound c conn true u (IsFree-on conn t u f free) (IsSound-on c conn t u f free.1 h)
        λ x. i
  IsSound-behind conn t (done (v, false), u) h free f i =
      release-IsSound c conn false u (IsFree-on conn t u f free) (IsSound-on c conn t u f free.1 h)
        λ x. absurd (cc x)

  IsSound-from :
      (request : VerifyPasswordRequest) (username : Text) (r : Outcome Conn × Session)
      → IsAcquired c r
      → IsSound c
          (elim r.0 as (λ o. Outcome VerifyPasswordResult × Session) [
            | done conn ↦ verify_and_release lib net c conn username request r.1
            | failed e ↦ (failed e, r.1)
          ]).1
  unfolding verify_and_release
  IsSound-from request username (failed e, t) a = a
  IsSound-from request username (done conn, t) (h, free) =
      let (f, i) = Restores-verify_on lib net c conn username request t in
      IsSound-behind conn t _ h free f i

  IsSound-call :
      (request : VerifyPasswordRequest) (s : Session)
      → IsSound c s
      → IsSound c (verify_password lib net c request s).1
  unfolding verify_password ◌>>=◌
  IsSound-call request s h = elim (Bool-cases (is_nil request.password)) [
    | inl empty ↦ rw (empty, verify_password) h
    | inr given ↦
        elim (Preprocessed-cases
          (preprocess lib.unicode lib.nfkc request.username c.config.username)) [
            | inr (e, bad) ↦ rw (given, bad, verify_password) h
            | inl (username, format, good) ↦
                rw (given, good, verify_password)
                  (IsSound-from request username _ (Acquires-acquire_conn lib net c false s h).1)
          ]
  ]

  no_success :
      (s : Session) (v : VerifyPasswordResult) (request : VerifyPasswordRequest)
      → (done (failed_verification reason_invalid_credentials) ≡ done v)
      → is_success v ≡ true
      → IsProven lib net c request s s v
  no_success s v request h success =
      let same : failed_verification reason_invalid_credentials ≡ v = cc h in
      absurd (ground (arith, ap is_success same, (refusals reason_invalid_credentials).0))

  -- From a session whose pool is sound, a call of `VerifyPassword` that gives a success has been
  -- given a password that is not empty and a user name that preprocessing accepts, and during the
  -- call the directory has accepted a bind with the password. The name of the bind is that of the
  -- entry which the search resolved, or that of the template with the user name put in, or the user
  -- name itself, by the way of looking users up, and the first two are the subject's identifier as
  -- far as the entry has no other; the subject's user name is the preprocessed one.
  pub verify_password-IsProven :
      (request : VerifyPasswordRequest) (s : Session) (v : VerifyPasswordResult)
      → IsSound c s
      → (verify_password lib net c request s).0 ≡ done v
      → is_success v ≡ true
      → IsProven lib net c request s (verify_password lib net c request s).1 v
  unfolding verify_password ◌>>=◌
  verify_password-IsProven request s v h e success = elim (Bool-cases (is_nil request.password)) [
    | inl empty ↦
        rw (empty, verify_password)
          (no_success s v request (rw (empty, verify_password) at e) success)
    | inr given ↦
        elim (Preprocessed-cases
          (preprocess lib.unicode lib.nfkc request.username c.config.username)) [
            | inr (x, bad) ↦
                rw (given, bad, verify_password)
                  (no_success s v request (rw (given, bad, verify_password) at e) success)
            | inl (username, format, good) ↦
                rw (given, good, verify_password)
                  (IsProven-from request username format s _ v (not_nil request.password given) good
                    (Acquires-acquire_conn lib net c false s h).0
                    (rw (given, good, verify_password) at e) success)
          ]
  ]
    where
      not_nil : (l : Text) → is_nil l ≡ false → l ≢ []
      not_nil [] n = absurd (cc n)
      not_nil (x ∷ l) n = λ e. absurd (cc e)

  -- The calls of a list of requests, one behind the other.
  unfoldable pub verify_all : List VerifyPasswordRequest → Session → Session
  verify_all [] s = s
  verify_all (request ∷ requests) s = verify_all requests (verify_password lib net c request s).1

  -- After any sequence of calls from a new client, and whatever the directory answered, no
  -- connection is in the pool twice, the pool holds at most as many as it is configured to, and the
  -- last bind that was tried on each of them was accepted and is the service's own.
  pub verify_all-IsSound :
      (requests : List VerifyPasswordRequest) → IsSound c (verify_all requests new_session)
  unfolding verify_all
  verify_all-IsSound requests =
      go requests new_session (record { held = tt; distinct = tt; fits = omega arith })
    where
      go :
          (requests : List VerifyPasswordRequest) (s : Session)
          → IsSound c s
          → IsSound c (verify_all requests s)
      go [] s h = h
      go (request ∷ requests) s h = go requests _ (IsSound-call request s h)
