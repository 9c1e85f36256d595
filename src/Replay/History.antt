-- ===== src/Replay/History.antt =====
-- The replay cache against the history of the keys that it accepted.
use native.Mathlib.Nat.{le_refl}
use mathlib.Core.Path.{ap₂}
use authrim_wordwarden.Prelude.{
  sym, ap, ◌∙◌, ◌≤◌, ◌≡◌, refl, Bool, true, false, Option, none, some, List, [], ◌∷◌, ◌&&◌, ◌||◌,
  Text, text_eq, lookup, insert, ◌==◌, leb, arith, if◌then◌else◌, Option-cases, inl, inr,
}
use authrim_wordwarden.GoTime.{Time, Duration, add}
use authrim_wordwarden.Replay.{ReplayCache, new_replay_cache, sweep, remember}

-- The specification keeps every accepted key with the instant of its acceptance, newest first,
-- and accepts a key unless it accepted it within the time to live.
abbrev pub History : Type 0
History = List (Text × Time)

unfoldable pub seen : Duration → Text → Time → History → Bool
seen ttl key now [] = false
seen ttl key now ((k, t) ∷ h) = (k == key && leb now (add t ttl)) || seen ttl key now h

unfoldable pub accept : Duration → History → Text → Time → History × Bool
accept ttl h key now = if seen ttl key now h then (h, false) else ((key, now) ∷ h, true)

live : Text → Time → List (Text × Time) → Bool
live key now [] = false
live key now ((k, expires) ∷ es) = (k == key && leb now expires) || live key now es

live-sweep :
    (key : Text) (t now : Time) (es : List (Text × Time))
    → t ≤ now
    → live key now (sweep t es) ≡ live key now es
unfolding live sweep
live-sweep key t now [] h = refl
live-sweep key t now ((k, x) ∷ es) h = ground (arith, live-sweep key t now es)

found : Option Time → Bool
found none = false
found (some t) = true

lookup-sweep :
    (key : Text) (now : Time) (es : List (Text × Time))
    → found (lookup key (sweep now es)) ≡ live key now es
unfolding live sweep lookup found
lookup-sweep key now [] = refl
lookup-sweep key now ((k, x) ∷ es) = ground (arith, lookup-sweep key now es)

live-insert :
    (key k : Text) (now x : Time) (es : List (Text × Time))
    → lookup k es ≡ none
    → live key now (insert k x es) ≡ ((k == key && leb now x) || live key now es)
unfolding live insert lookup
live-insert key k now x [] h = refl
live-insert key k now x ((j, y) ∷ es) h = ground (arith, live-insert key k now x es)

-- From `now` on the cache and the history answer alike.
abbrev Agree : ReplayCache → History → Time → Type 0
Agree c h now = (key : Text) (t : Time) → now ≤ t → live key t c.entries ≡ seen c.ttl key t h

record Simulates (c : ReplayCache) (h : History) (key : Text) (now : Time) : Type 0 where
  ttl : (remember c key now).0.ttl ≡ c.ttl
  answer : (remember c key now).1 ≡ (accept c.ttl h key now).1
  agree : Agree (remember c key now).0 (accept c.ttl h key now).0 now

remember-Simulates :
    (c : ReplayCache) (h : History) (key : Text) (now : Time)
    → Agree c h now
    → Simulates c h key now
unfolding remember accept seen found
remember-Simulates c h key now a = elim (Option-cases (lookup key (sweep now c.entries))) [
  | inl absent ↦
      let fresh : seen c.ttl key now h ≡ false =
        sym (a key now (le_refl now)) ∙ (sym (lookup-sweep key now c.entries) ∙ ap found absent) in
      record {
        ttl = rw (absent, remember);
        answer = rw (absent, remember, fresh, accept);
        agree = λ k t le. ground (
          arith,
          absent,
          fresh,
          live-insert k key t (add now c.ttl) (sweep now c.entries),
          live-sweep k now t c.entries,
          a k t le,
        );
      }
  | inr (x, present) ↦
      let old : seen c.ttl key now h ≡ true =
        sym (a key now (le_refl now)) ∙ (sym (lookup-sweep key now c.entries) ∙ ap found present) in
      record {
        ttl = rw (present, remember);
        answer = rw (present, remember, old, accept);
        agree = λ k t le. ground (arith, present, old, live-sweep k now t c.entries, a k t le);
      }
]

-- The answers of a cache, and of the specification, to successive requests.
unfoldable pub remember_all : ReplayCache → List (Text × Time) → List Bool
remember_all c [] = []
remember_all c ((key, now) ∷ calls) = let r = remember c key now in r.1 ∷ remember_all r.0 calls

unfoldable pub accept_all : Duration → History → List (Text × Time) → List Bool
accept_all ttl h [] = []
accept_all ttl h ((key, now) ∷ calls) =
    let r = accept ttl h key now in r.1 ∷ accept_all ttl r.0 calls

-- The clock does not go back, from `t` on.
abbrev pub IsOrdered : Time → List (Text × Time) → Type 0
IsOrdered t [] = Unit
IsOrdered t ((key, now) ∷ calls) = (t ≤ now) × IsOrdered now calls

remember_all-accept_all :
    (c : ReplayCache) (h : History) (t : Time) (calls : List (Text × Time))
    → Agree c h t
    → IsOrdered t calls
    → remember_all c calls ≡ accept_all c.ttl h calls
unfolding remember_all accept_all
remember_all-accept_all c h t [] a o = refl
remember_all-accept_all c h t ((key, now) ∷ calls) a (le, o) =
    let s = remember-Simulates c h key now (λ k u later. a k u (omega arith)) in
    let rest =
      remember_all-accept_all (remember c key now).0 (accept c.ttl h key now).0 now calls s.agree
        o in
    ap₂ {C = List Bool} ◌∷◌ s.answer
      (rest ∙ ap (λ d. accept_all d (accept c.ttl h key now).0 calls) s.ttl)

-- A cache answers as the history of accepted keys says, for every sequence of requests on a clock
-- that does not go back: it accepts a key exactly when it accepted it at no instant from which the
-- time to live has not yet passed.
pub replay_refines_history :
    (ttl : Duration) (calls : List (Text × Time))
    → IsOrdered 0 calls
    → remember_all (new_replay_cache ttl) calls ≡ accept_all ttl [] calls
unfolding new_replay_cache
replay_refines_history ttl calls o =
    remember_all-accept_all (new_replay_cache ttl) [] 0 calls (λ k t le. unfold live seen in refl) o
