-- ===== src/Replay/Window.antt =====
-- A key accepted by the replay cache is refused until its time to live has passed.
use authrim_wordwarden.Prelude.{
  ◌≤◌, ◌≡◌, true, false, some, List, [], ◌∷◌, Text, text_eq, text_iff, text_beq_refl, lookup,
  lookup-insert, arith, All,
}
use authrim_wordwarden.GoTime.{Time, add}
use authrim_wordwarden.Replay.{ReplayCache, sweep, remember}

-- The cache after further calls of `Remember`.
unfoldable pub after_calls : ReplayCache → List (Text × Time) → ReplayCache
after_calls c [] = c
after_calls c ((key, now) ∷ calls) = after_calls (remember c key now).0 calls

lookup-sweep_kept :
    (key : Text) (x now : Time) (es : List (Text × Time))
    → now ≤ x
    → lookup key es ≡ some x
    → lookup key (sweep now es) ≡ some x
unfolding lookup sweep
lookup-sweep_kept key x now [] h e = cc
lookup-sweep_kept key x now ((k, y) ∷ es) h e = ground (arith, lookup-sweep_kept key x now es)

-- An entry outlives every call that is not later than its expiry.
pub lookup-remember :
    (c : ReplayCache) (key k : Text) (x now : Time)
    → now ≤ x
    → lookup key c.entries ≡ some x
    → lookup key (remember c k now).0.entries ≡ some x
unfolding remember
lookup-remember c key k x now h e = ground (
  arith,
  lookup-sweep_kept key x now c.entries,
  lookup-insert k key (add now c.ttl) (sweep now c.entries),
  text_iff k key,
)

pub lookup-remember_self :
    (c : ReplayCache) (key : Text) (now : Time)
    → (remember c key now).1 ≡ true
    → lookup key (remember c key now).0.entries ≡ some (add now c.ttl)
unfolding remember
lookup-remember_self c key now h =
    ground (arith, lookup-insert key key (add now c.ttl) (sweep now c.entries), text_beq_refl key)

pub lookup-after_calls :
    (c : ReplayCache) (key : Text) (x t : Time) (calls : List (Text × Time))
    → All (λ call. call.1 ≤ t) calls
    → t ≤ x
    → lookup key c.entries ≡ some x
    → lookup key (after_calls c calls).entries ≡ some x
unfolding after_calls
lookup-after_calls c key x t [] h le e = e
lookup-after_calls c key x t ((k, now) ∷ calls) (h, hs) le e =
    lookup-after_calls (remember c k now).0 key x t calls hs le
      (lookup-remember c key k x now (omega arith) e)

pub remember-refused :
    (c : ReplayCache) (key : Text) (x now : Time)
    → now ≤ x
    → lookup key c.entries ≡ some x
    → (remember c key now).1 ≡ false
unfolding remember
remember-refused c key x now h e = ground (arith, lookup-sweep_kept key x now c.entries)

-- A key that was accepted at one instant is refused at every other that is no later than the time
-- to live after it, whatever was remembered in between by calls no later than that other instant.
pub replay_once :
    (c : ReplayCache) (key : Text) (first second : Time) (calls : List (Text × Time))
    → (remember c key first).1 ≡ true
    → All (λ call. call.1 ≤ second) calls
    → second ≤ add first c.ttl
    → (remember (after_calls (remember c key first).0 calls) key second).1 ≡ false
replay_once c key first second calls accepted h le =
    remember-refused _ key (add first c.ttl) second le (
      lookup-after_calls _ key (add first c.ttl) second calls h le
        (lookup-remember_self c key first accepted))

pub ttl-remember : (c : ReplayCache) (key : Text) (now : Time) → (remember c key now).0.ttl ≡ c.ttl
unfolding remember
ttl-remember c key now = ground arith
