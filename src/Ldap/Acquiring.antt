-- ===== src/Ldap/Acquiring.antt =====
-- A connection that internal/adapters/ldap/client.go acquires is in use nowhere else.
use authrim_wordwarden.Prelude.{
  ◌≡◌, ◌≤◌, ◌<◌, inl, inr, refl, ap, ◌∙◌, Bool, false, not, ◌||◌, List, [], ◌∷◌, ◌++◌, Option, none,
  some, Text, text_eq, arith, Bool-cases, length, subst, All, sym, append_assoc,
}
use authrim_wordwarden.Ldap.{Library, Client}
use authrim_wordwarden.Ldap.Network.{Conn, Event, Network, Session, Outcome, done, failed}
use authrim_wordwarden.Ldap.Connections.{
  close, dial_endpoint, dial_first, dial, has_pool, validate_pooled_conn, take_idle, take_first,
  use_idle, acquire_conn, endpoint_urls,
}
use authrim_wordwarden.Ldap.Frame.{Frame, Framed, Frame-refl, Frame-trans, Outcome-cases}
use authrim_wordwarden.Ldap.Parts.{Framed-if, Framed-close, Framed-bind_service}
use authrim_wordwarden.Ldap.Opening.{Opens, Opens-dial_endpoint, IsNew, IsNew-later}
use authrim_wordwarden.Ldap.Pooling.{
  IsSound, IsFree, NotIn, IsDistinct, IsHeld, IsSound-on, IsFree-on, new-NotIn,
}

-- Calls have only been added.
pub record Grows (s t : Session) : Type 0 where
  pub new : List Event
  pub grows : t.log ≡ new ++ s.log

pub Grows-Frame : {conn : Conn} {s t : Session} → Frame conn s t → Grows s t
Grows-Frame f = record { new = f.new; grows = f.grows }

pub Grows-trans : {s t u : Session} → Grows s t → Grows t u → Grows s u
Grows-trans {s} f g = record {
  new = g.new ++ f.new;
  grows = g.grows ∙ (ap (λ l. g.new ++ l) f.grows ∙ sym (append_assoc g.new f.new s.log));
}

-- What an acquisition leaves: a sound pool, and a connection that is not in it.
abbrev pub IsAcquired : Client → Outcome Conn × Session → Type 0
IsAcquired c (done conn, t) = IsSound c t × IsFree conn t
IsAcquired c (failed e, t) = IsSound c t

abbrev pub Acquires : Client → Session → Outcome Conn × Session → Type 0
Acquires c s r = Grows s r.1 × IsAcquired c r

module _ (lib : Library) (net : Network) (c : Client) where
  pub Opens-dial_first :
      (insecure tls_failed : Bool) (endpoints : List Text)
      → Opens (dial_first lib net c insecure tls_failed endpoints)
  unfolding dial_first
  Opens-dial_first insecure tls_failed [] conn s = (Frame-refl conn s, tt)
  Opens-dial_first insecure tls_failed (endpoint ∷ endpoints) conn s =
      let r = dial_endpoint lib net c endpoint insecure s in
      let (f, n) = Opens-dial_endpoint lib net c endpoint insecure conn s in
      elim (Outcome-cases r.0) [
        | inl (fresh, e) ↦ rw (e, dial_first) (f, opened_is s r.0 r.1 fresh e n)
        | inr (x, e) ↦
            let (g, m) = Opens-dial_first insecure _ endpoints conn r.1 in
            rw (e, dial_first) (Frame-trans f g, IsNew-later s r.1 _ f.next m)
      ]
    where
      opened_is :
          (s : Session) (o : Outcome Conn) (t : Session) (fresh : Conn)
          → o ≡ done fresh
          → IsNew s (o, t)
          → (s.next ≤ fresh) × (fresh < t.next)
      opened_is s (done x) t fresh e n = let same : x ≡ fresh = cc e in omega arith
      opened_is s (failed x) t fresh e n = absurd (cc e)

  acquired_from :
      (s : Session) (r : Outcome Conn × Session)
      → Frame s.next s r.1
      → IsNew s r
      → IsSound c s
      → Acquires c s r
  acquired_from s (done fresh, t) f (le, lt) h =
      let apart = new-NotIn c s s.next s.idle (omega arith) h.held in
      (
        Grows-Frame f,
        (IsSound-on c s.next s t f apart h, (lt, rw f.idle (new-NotIn c s fresh s.idle le h.held))),
      )
  acquired_from s (failed e, t) f n h =
      let apart = new-NotIn c s s.next s.idle (omega arith) h.held in
      (Grows-Frame f, IsSound-on c s.next s t f apart h)

  Acquires-dial :
      (insecure : Bool) (s : Session) → IsSound c s → Acquires c s (dial lib net c insecure s)
  unfolding dial
  Acquires-dial insecure s h =
      let (f, n) = Opens-dial_first insecure false (endpoint_urls c.config) s.next s in
      acquired_from s _ f n h

  Framed-validate : (conn : Conn) → Framed conn (validate_pooled_conn lib net c conn)
  unfolding validate_pooled_conn
  Framed-validate conn = Framed-if conn _ _ _ (Framed-bind_service lib net c conn) (Frame-refl conn)

  Acquires-later :
      (s t : Session) (r : Outcome Conn × Session) → Grows s t → Acquires c t r → Acquires c s r
  Acquires-later s t r g a = (Grows-trans g a.0, a.1)

  validated_from :
      (conn : Conn) (s : Session) (v : Outcome (Unit {0}) × Session)
      → Frame conn s v.1
      → IsFree conn s
      → IsSound c s
      → Acquires c s (elim v.0 as (λ o. Outcome Conn × Session) [
        | done ok ↦ (done conn, v.1)
        | failed e ↦ dial lib net c false (close conn v.1)
      ])
  validated_from conn s (done ok, t) f free h =
      (Grows-Frame f, (IsSound-on c conn s t f free.1 h, IsFree-on conn s t f free))
  validated_from conn s (failed e, t) f free h =
      let g = Frame-trans f (Framed-close conn t) in
      Acquires-later s (close conn t) _ (Grows-Frame g)
        (Acquires-dial false (close conn t) (IsSound-on c conn s (close conn t) g free.1 h))

  abbrev IsTaken : Session → Option Conn × Session → Type 0
  IsTaken s (none, t) = Grows s t × IsSound c t
  IsTaken s (some conn, t) = Grows s t × IsSound c t × IsFree conn t

  IsTaken-first :
      (idle : List Conn) (s : Session) → s.idle ≡ idle → IsSound c s → IsTaken s (take_first idle s)
  unfolding take_first
  IsTaken-first [] s e h = (record { new = []; grows = refl }, h)
  IsTaken-first (conn ∷ idle) s e h =
      let held : All (IsHeld c s) (conn ∷ idle) = subst (All (IsHeld c s)) e h.held in
      let distinct : NotIn conn idle × IsDistinct idle = subst IsDistinct e h.distinct in
      (
        record { new = []; grows = refl },
        record {
          held = held.1;
          distinct = distinct.1;
          fits = let fits = h.fits in ground (arith, ap length e);
        },
        (held.0.0, distinct.0),
      )

  used_idle :
      (s : Session) (r : Option Conn × Session)
      → IsTaken s r
      → Acquires c s (use_idle lib net c r.0 r.1)
  unfolding use_idle
  used_idle s (none, t) (g, h) = Acquires-later s t _ g (Acquires-dial false t h)
  used_idle s (some conn, t) (g, h, free) =
      Acquires-later s t _ g (validated_from conn t _ (Framed-validate conn t) free h)

  pub Acquires-acquire_conn :
      (insecure : Bool) (s : Session)
      → IsSound c s
      → Acquires c s (acquire_conn lib net c insecure s)
  unfolding acquire_conn take_idle
  Acquires-acquire_conn insecure s h = elim (Bool-cases (insecure || not (has_pool c))) [
    | inl direct ↦ rw (direct, acquire_conn) (Acquires-dial insecure s h)
    | inr pooled ↦ rw (pooled, acquire_conn) (used_idle s _ (IsTaken-first s.idle s refl h))
  ]
