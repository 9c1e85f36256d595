-- ===== src/Ldap/Opening.antt =====
-- The connections that internal/adapters/ldap/client.go opens are new.
use authrim_wordwarden.Prelude.{
  ◌≡◌, ◌≤◌, ◌<◌, inl, inr, refl, Bool, true, false, [], ◌∷◌, Option, none, some, Text, text_eq,
  if◌then◌else◌, arith, Option-cases,
}
use authrim_wordwarden.GoTime.{Duration}
use authrim_wordwarden.Ldap.{Library, Client}
use authrim_wordwarden.Ldap.Network.{
  Conn, opened, unreachable, secured, Network, Session, Outcome, done, failed, Action, ◌>>=◌,
  TlsConfig,
}
use authrim_wordwarden.Ldap.Connections.{
  within, raw_dial, start_tls, dial_endpoint, root_cas, tls_config,
}
use authrim_wordwarden.Ldap.Frame.{
  last_bind, Frame, Framed, Frame-refl, Frame-trans, Frame-note, Frame-new, Framed-bind,
}
use authrim_wordwarden.Ldap.Parts.{Framed-close}

abbrev pub IsNew : Session → Outcome Conn × Session → Type 0
IsNew s (done conn, t) = (s.next ≤ conn) × (conn < t.next)
IsNew s (failed e, t) = Unit

-- A part that opens a connection, or fails; either way every old connection is left alone.
abbrev pub Opens : Action Conn → Type 0
Opens part = (conn : Conn) (s : Session) → Frame conn s (part s).1 × IsNew s (part s)

pub IsNew-later :
    (s t : Session) (r : Outcome Conn × Session) → s.next ≤ t.next → IsNew t r → IsNew s r
IsNew-later s t (done conn, u) h (a, b) = omega arith
IsNew-later s t (failed e, u) h n = tt

Opens-from {κ} :
    {S : Type κ} (conn : Conn) (s : Session) (r : Outcome S × Session) (next : S → Action Conn)
    → Frame conn s r.1
    → ((a : S) → Opens (next a))
    → let o : Outcome Conn × Session = elim r.0 [
      | done a ↦ next a r.1
      | failed e ↦ (failed e, r.1)
    ] in
      Frame conn s o.1 × IsNew s o
Opens-from conn s (done a, t) next f g =
    let (h, n) = g a conn t in (Frame-trans f h, IsNew-later s t (next a t) f.next n)
Opens-from conn s (failed e, t) next f g = (f, tt)

Opens-bind {κ} :
    {S : Type κ} (part : Action S) (next : S → Action Conn)
    → ((conn : Conn) → Framed conn part)
    → ((a : S) → Opens (next a))
    → Opens (part >>= next)
unfolding ◌>>=◌
Opens-bind part next f g conn s = Opens-from conn s (part s) next (f conn s) g

Opens-if : (b : Bool) (x y : Action Conn) → Opens x → Opens y → Opens (if b then x else y)
Opens-if true x y f g = f
Opens-if false x y f g = g

used_from {κ} :
    {S : Type κ} (conn : Conn) (s : Session) (r : Outcome Conn × Session) (next : Conn → Action S)
    → Frame conn s r.1
    → IsNew s r
    → ((fresh : Conn) → Framed fresh (next fresh))
    → Frame conn s
        (elim r.0 as (λ o. Outcome S × Session) [
          | done fresh ↦ next fresh r.1
          | failed e ↦ (failed e, r.1)
        ]).1
used_from conn s (done fresh, t) next f n g = Frame-new f n.0 (g fresh t)
used_from conn s (failed e, t) next f n g = f

-- A part that works on a connection of its own is in the frame of any connection.
pub Framed-own {κ} :
    {S : Type κ} (conn : Conn) (part : Action Conn) (next : Conn → Action S)
    → Opens part
    → ((fresh : Conn) → Framed fresh (next fresh))
    → Framed conn (part >>= next)
unfolding ◌>>=◌
Framed-own conn part next f g s = let (h, n) = f conn s in used_from conn s (part s) next h n g

module _ (lib : Library) (net : Network) (c : Client) where
  Opens-raw_dial :
      (endpoint : Text) (timeout : Duration) (tls : Option TlsConfig)
      → Opens (raw_dial lib net c endpoint timeout tls)
  unfolding raw_dial
  Opens-raw_dial endpoint timeout tls conn s =
      elim (Option-cases (net.dial s.log endpoint timeout tls)) [
        | inr (f, e) ↦
            rw (e, raw_dial)
              (Frame-note conn (unreachable endpoint) s (λ d differs. unfold last_bind in refl), tt)
        | inl e ↦
            rw (e, raw_dial)
              (
                record {
                  idle = refl;
                  next = omega arith;
                  new = opened s.next endpoint tls ∷ [];
                  grows = refl;
                  others = λ d differs old. unfold last_bind in ground arith;
                },
                (omega arith, omega arith),
              )
      ]

  tls_from :
      (conn : Conn) (s : Session) (tls : TlsConfig) (r : Outcome Conn × Session)
      → Frame conn s r.1
      → IsNew s r
      → let o : Outcome Conn × Session = elim r.0 [
        | done fresh ↦ start_tls lib net c fresh tls r.1
        | failed e ↦ (failed e, r.1)
      ] in
        Frame conn s o.1 × IsNew s o
  unfolding start_tls
  tls_from conn s tls (failed e, t) f n = (f, tt)
  tls_from conn s tls (done fresh, t) f n = elim (Option-cases (net.start_tls t.log fresh tls)) [
    | inl e ↦
        rw (e, start_tls)
          (
            Frame-new f n.0
                (Frame-note fresh (secured fresh tls) t (λ d differs. unfold last_bind in refl)),
            n,
          )
    | inr (g, e) ↦ rw (e, start_tls) (Frame-new f n.0 (Framed-close fresh t), tt)
  ]

  Opens-tls :
      (part : Action Conn) (tls : TlsConfig)
      → Opens part
      → Opens (part >>= λ conn. start_tls lib net c conn tls)
  unfolding ◌>>=◌
  Opens-tls part tls f conn s = let (g, n) = f conn s in tls_from conn s tls (part s) g n

  Framed-root_cas : (conn : Conn) → Framed conn (root_cas lib net c)
  unfolding root_cas
  Framed-root_cas conn s =
      let same : (root_cas lib net c s).1 ≡ s = ground arith in rw same (Frame-refl conn s)

  pub Opens-dial_endpoint :
      (endpoint : Text) (insecure : Bool) → Opens (dial_endpoint lib net c endpoint insecure)
  unfolding dial_endpoint within tls_config
  Opens-dial_endpoint endpoint insecure =
      Opens-bind _ _ (λ conn s. Frame-refl conn s)
        λ timeout.
          Opens-bind _ _
            (λ conn. Framed-bind conn _ _ (Framed-root_cas conn) λ cas s. Frame-refl conn s)
            λ tls.
              Opens-if c.config.tls.start_tls _ _
                (Opens-tls _ tls (Opens-raw_dial endpoint timeout none))
                (Opens-raw_dial endpoint timeout (some tls))
