-- ===== src/Ldap/Frame.antt =====
-- What the parts of internal/adapters/ldap/client.go that work on one connection leave alone.
use authrim_wordwarden.Prelude.{
  ◌≡◌, ◌≢◌, ◌≤◌, ◌<◌, ◌⊎◌, inl, inr, refl, ap, sym, ◌∙◌, List, [], ◌∷◌, ◌++◌, Option, none, some,
  Text, if◌then◌else◌, eqb, arith, append_assoc,
}
use authrim_wordwarden.Ldap.Network.{
  Conn, Failure, Event, opened, unreachable, secured, timeout_set, bound, refused, searched, closed,
  Session, Outcome, done, failed, Action, note, ◌>>=◌, attempt,
}

-- The identity that a connection has: that of its last bind, if this was accepted.
unfoldable pub last_bind : Conn → List Event → Option (Text × Text)
last_bind c [] = none
last_bind c (bound d name password ∷ log) =
    if eqb c d then some (name, password) else last_bind c log
last_bind c (refused d name password ∷ log) = if eqb c d then none else last_bind c log
last_bind c (opened d endpoint tls ∷ log) = if eqb c d then none else last_bind c log
last_bind c (closed d ∷ log) = if eqb c d then none else last_bind c log
last_bind c (unreachable endpoint ∷ log) = last_bind c log
last_bind c (secured d tls ∷ log) = last_bind c log
last_bind c (timeout_set d timeout ∷ log) = last_bind c log
last_bind c (searched d request ∷ log) = last_bind c log

abbrev pub Has : Event → List Event → Type 0
Has e [] = ⊥
Has e (x ∷ xs) = (e ≡ x) ⊎ Has e xs

pub Has-append : (e : Event) (xs ys : List Event) → Has e xs → Has e (xs ++ ys)
Has-append e [] ys h = elim h [ ]
Has-append e (x ∷ xs) ys (inl h) = inl h
Has-append e (x ∷ xs) ys (inr h) = inr (Has-append e xs ys h)

pub Has-append_right : (e : Event) (xs ys : List Event) → Has e ys → Has e (xs ++ ys)
Has-append_right e [] ys h = h
Has-append_right e (x ∷ xs) ys h = inr (Has-append_right e xs ys h)

-- From one session to a later one: the pool is as it was, calls have only been added, and no
-- connection but `conn` and new ones has another identity.
pub record Frame (conn : Conn) (s t : Session) : Type 0 where
  pub idle : t.idle ≡ s.idle
  pub next : s.next ≤ t.next
  pub new : List Event
  pub grows : t.log ≡ new ++ s.log
  pub others : (d : Conn) → d ≢ conn → d < s.next → last_bind d t.log ≡ last_bind d s.log

pub Frame-refl : (conn : Conn) (s : Session) → Frame conn s s
Frame-refl conn s = record {
  idle = refl;
  next = omega arith;
  new = [];
  grows = refl;
  others = λ d differs old. refl;
}

pub Frame-trans : {conn : Conn} {s t u : Session} → Frame conn s t → Frame conn t u → Frame conn s u
Frame-trans {s} f g = record {
  idle = g.idle ∙ f.idle;
  next = let a = f.next in let b = g.next in omega arith;
  new = g.new ++ f.new;
  grows = g.grows ∙ (ap (λ l. g.new ++ l) f.grows ∙ sym (append_assoc g.new f.new s.log));
  others =
      λ d differs old. let a = f.next in g.others d differs (omega arith) ∙ f.others d differs old;
}

pub Frame-note :
    (conn : Conn) (e : Event) (s : Session)
    → ((d : Conn) → d ≢ conn → last_bind d (e ∷ s.log) ≡ last_bind d s.log)
    → Frame conn s (note e s)
Frame-note conn e s h = record {
  idle = refl;
  next = omega arith;
  new = e ∷ [];
  grows = refl;
  others = λ d differs old. h d differs;
}

-- A part on a new connection leaves every old one alone.
pub Frame-new :
    {conn fresh : Conn} {s t u : Session}
    → Frame conn s t
    → s.next ≤ fresh
    → Frame fresh t u
    → Frame conn s u
Frame-new {s} f later g = record {
  idle = g.idle ∙ f.idle;
  next = let a = f.next in let b = g.next in omega arith;
  new = g.new ++ f.new;
  grows = g.grows ∙ (ap (λ l. g.new ++ l) f.grows ∙ sym (append_assoc g.new f.new s.log));
  others = λ d differs old.
      let a = f.next in
      g.others d (λ same. absurd (omega arith)) (omega arith) ∙ f.others d differs old;
}

abbrev pub Framed {ℓ} : {A : Type ℓ} → Conn → Action A → Type 0
Framed conn part = (s : Session) → Frame conn s (part s).1

bind_from {κ μ} :
    {S : Type κ} {T : Type μ} (conn : Conn) (s : Session) (r : Outcome S × Session)
    (next : S → Action T)
    → Frame conn s r.1
    → ((a : S) → Framed conn (next a))
    → Frame conn s
        (elim r.0 as (λ o. Outcome T × Session) [
          | done a ↦ next a r.1
          | failed e ↦ (failed e, r.1)
        ]).1
bind_from conn s (done a, t) next f g = Frame-trans f (g a t)
bind_from conn s (failed e, t) next f g = f

pub Framed-bind {κ μ} :
    {S : Type κ} {T : Type μ} (conn : Conn) (part : Action S) (next : S → Action T)
    → Framed conn part
    → ((a : S) → Framed conn (next a))
    → Framed conn (part >>= next)
unfolding ◌>>=◌
Framed-bind conn part next f g s = bind_from conn s (part s) next (f s) g

pub Framed-attempt {κ} :
    {S : Type κ} (conn : Conn) (part : Action S) → Framed conn part → Framed conn (attempt part)
unfolding attempt
Framed-attempt conn part f s = f s

pub Framed-cases {κ μ} :
    {S : Type κ} {T : Type μ} (conn : Conn) (o : Outcome S) (f : S → Action T)
    (g : Failure → Action T)
    → ((a : S) → Framed conn (f a))
    → ((e : Failure) → Framed conn (g e))
    → Framed conn (elim o as (λ x. Action T) [ done a ↦ f a | failed e ↦ g e ])
Framed-cases conn (done a) f g h k = h a
Framed-cases conn (failed e) f g h k = k e

pub Outcome-cases {κ} :
    {S : Type κ} (o : Outcome S) → ((a : S) × (o ≡ done a)) ⊎ ((e : Failure) × (o ≡ failed e))
Outcome-cases (done a) = inl (a, refl)
Outcome-cases (failed e) = inr (e, refl)

-- A call that has been made between two sessions.
pub record Does (e : Event) (s t : Session) : Type 0 where
  pub new : List Event
  pub grows : t.log ≡ new ++ s.log
  pub made : Has e new

pub Does-after :
    {e : Event} {conn : Conn} {s t u : Session} → Frame conn s t → Does e t u → Does e s u
Does-after {e} {s} f d = record {
  new = d.new ++ f.new;
  grows = d.grows ∙ (ap (λ l. d.new ++ l) f.grows ∙ sym (append_assoc d.new f.new s.log));
  made = Has-append e d.new f.new d.made;
}

pub Does-before :
    {e : Event} {conn : Conn} {s t u : Session} → Does e s t → Frame conn t u → Does e s u
Does-before {e} {s} d f = record {
  new = f.new ++ d.new;
  grows = f.grows ∙ (ap (λ l. f.new ++ l) d.grows ∙ sym (append_assoc f.new d.new s.log));
  made = Has-append_right e f.new d.new d.made;
}
