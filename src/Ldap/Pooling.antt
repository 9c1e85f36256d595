-- ===== src/Ldap/Pooling.antt =====
-- The pool of internal/adapters/ldap/client.go holds connections of the service alone.
use authrim_wordwarden.Prelude.{
  ◌≡◌, ◌≢◌, ◌≤◌, ◌<◌, inl, inr, ◌∙◌, Bool, true, ◌&&◌, List, [], ◌∷◌, ◌++◌, text_eq, ltb, arith,
  Bool-cases, length, length-append, All, All-append, sym,
}
use authrim_wordwarden.Ldap.{Client}
use authrim_wordwarden.Ldap.Network.{Conn, Session}
use authrim_wordwarden.Ldap.Connections.{close, has_pool, capacity, put_idle, release_conn}
use authrim_wordwarden.Ldap.Frame.{last_bind, Frame}
use authrim_wordwarden.Ldap.Parts.{Framed-close}
use authrim_wordwarden.Ldap.Restoring.{service}

abbrev pub NotIn : Conn → List Conn → Type 0
NotIn conn idle = All (λ d. d ≢ conn) idle

abbrev pub IsDistinct : List Conn → Type 0
IsDistinct [] = Unit
IsDistinct (d ∷ idle) = NotIn d idle × IsDistinct idle

-- An idle connection was opened before, and its last bind is the service's.
abbrev pub IsHeld : Client → Session → Conn → Type 0
IsHeld c s d = (d < s.next) × (last_bind d s.log ≡ service c)

pub record IsSound (c : Client) (s : Session) : Type 0 where
  pub held : All (IsHeld c s) s.idle
  pub distinct : IsDistinct s.idle
  pub fits : length s.idle ≤ capacity c.config.pool.max_idle

-- A connection that is in use, and not in the pool.
abbrev pub IsFree : Conn → Session → Type 0
IsFree conn s = (conn < s.next) × NotIn conn s.idle

IsHeld-on :
    (c : Client) (conn : Conn) (s t : Session) (idle : List Conn)
    → Frame conn s t
    → NotIn conn idle
    → All (IsHeld c s) idle
    → All (IsHeld c t) idle
IsHeld-on c conn s t [] f n h = tt
IsHeld-on c conn s t (d ∷ idle) f (differs, n) ((old, same), h) =
    let grown = f.next in
    ((omega arith, f.others d differs old ∙ same), IsHeld-on c conn s t idle f n h)

-- What stays in a frame keeps the pool sound.
pub IsSound-on :
    (c : Client) (conn : Conn) (s t : Session)
    → Frame conn s t
    → NotIn conn s.idle
    → IsSound c s
    → IsSound c t
IsSound-on c conn s t f n h = record {
  held = rw f.idle (IsHeld-on c conn s t s.idle f n h.held);
  distinct = rw f.idle h.distinct;
  fits = rw f.idle h.fits;
}

pub IsFree-on : (conn : Conn) (s t : Session) → Frame conn s t → IsFree conn s → IsFree conn t
IsFree-on conn s t f (old, n) = let grown = f.next in (omega arith, rw f.idle n)

pub new-NotIn :
    (c : Client) (s : Session) (fresh : Conn) (idle : List Conn)
    → s.next ≤ fresh
    → All (IsHeld c s) idle
    → NotIn fresh idle
new-NotIn c s fresh [] le h = tt
new-NotIn c s fresh (d ∷ idle) le ((old, same), h) =
    (λ e. absurd (omega arith), new-NotIn c s fresh idle le h)

append-IsDistinct :
    (conn : Conn) (idle : List Conn)
    → NotIn conn idle
    → IsDistinct idle
    → IsDistinct (idle ++ conn ∷ [])
append-IsDistinct conn [] n d = (tt, tt)
append-IsDistinct conn (x ∷ idle) (differs, n) (m, d) = (
  All-append (λ y. y ≢ x) idle (conn ∷ []) m (λ e. differs (sym e), tt),
  append-IsDistinct conn idle n d,
)

pub release-IsSound :
    (c : Client) (conn : Conn) (reusable : Bool) (s : Session)
    → IsFree conn s
    → IsSound c s
    → (reusable ≡ true → last_bind conn s.log ≡ service c)
    → IsSound c (release_conn c conn reusable s)
unfolding release_conn put_idle
release-IsSound c conn reusable s free h i =
    let shut = IsSound-on c conn s (close conn s) (Framed-close conn s) free.1 h in
    elim (Bool-cases (reusable && has_pool c)) [
      | inr lost ↦ rw (lost, release_conn) shut
      | inl kept ↦ elim (Bool-cases (ltb (length s.idle) (capacity c.config.pool.max_idle))) [
        | inr full ↦ rw (kept, full, release_conn, put_idle) shut
        | inl room ↦
            rw (kept, room, release_conn, put_idle)
              (record {
                held =
                    All-append (IsHeld c s) s.idle (conn ∷ []) h.held
                      ((free.0, i (ground arith)), tt);
                distinct = append-IsDistinct conn s.idle free.1 h.distinct;
                fits = ground (arith, length-append s.idle (conn ∷ []));
              })
      ]
    ]
