-- ===== src/Storm/Counting.antt =====
-- When a kind of event blocks, of internal/ports/httpapi/storm.go.
use authrim_wordwarden.Prelude.{
  ℕ, suc, ◌+◌, ◌*◌, ◌≤◌, ◌≡◌, refl, ap, Option, none, some, List, [], ◌∷◌, pos, if◌then◌else◌, leb,
  ltb, length, All, ◌&&◌, arith, ◌∙◌,
}
use authrim_wordwarden.GoTime.{Time, millis-pos, max_millis, sub, add}
use authrim_wordwarden.Storm.{
  StormProtectionPolicy, StormKind, malformed, replay, directory_error, StormState, zero_state,
  ConnectorStorms, limit, state_of, put_state, blocked, counted, open_window, record_event,
}

-- The policy's numbers for a kind, positive and small enough that no duration wraps.
pub record Settings (p : StormProtectionPolicy) (kind : StormKind) (w b l : ℕ) : Type 0 where
  pub window : p.window_ms ≡ pos w
  pub block : p.block_ms ≡ pos b
  pub limit_is : limit p kind ≡ pos l
  pub window_fits : w ≤ max_millis
  pub block_fits : b ≤ max_millis

pub state_of-put_state :
    (s : ConnectorStorms) (kind : StormKind) (st : StormState)
    → state_of (put_state s kind st) kind ≡ st
unfolding state_of put_state
state_of-put_state s malformed st = refl
state_of-put_state s replay st = refl
state_of-put_state s directory_error st = refl

pub put_state-policy :
    (s : ConnectorStorms) (kind : StormKind) (st : StormState)
    → (put_state s kind st).policy ≡ s.policy
unfolding put_state
put_state-policy s malformed st = refl
put_state-policy s replay st = refl
put_state-policy s directory_error st = refl

-- Successive calls of `record` for one kind.
unfoldable pub record_all : ConnectorStorms → StormKind → List Time → ConnectorStorms
record_all s kind [] = s
record_all s kind (t ∷ ts) = record_all (record_event s kind t) kind ts

count_all : StormProtectionPolicy → StormKind → StormState → List Time → StormState
count_all p kind st [] = st
count_all p kind st (t ∷ ts) = count_all p kind (counted p kind t st) ts

state_of-record_all :
    (s : ConnectorStorms) (kind : StormKind) (ts : List Time)
    → state_of (record_all s kind ts) kind ≡ count_all s.policy kind (state_of s kind) ts
unfolding record_all count_all
state_of-record_all s kind [] = refl
state_of-record_all s kind (t ∷ ts) =
    let st = counted s.policy kind t (state_of s kind) in
    state_of-record_all (record_event s kind t) kind ts
    ∙ (unfold record_event in rw (state_of-put_state s kind st, put_state-policy s kind st))

abbrev pub last_of : Time → List Time → Time
last_of t [] = t
last_of t (u ∷ us) = last_of u us

-- In the window of `start`: not before it, and at most `w` milliseconds after.
abbrev pub InWindow : Time → ℕ → Time → Type 0
InWindow start w t = (start ≤ t) × (t ≤ start + w * 1000000)

module _ {p : StormProtectionPolicy} {kind : StormKind} {w b l : ℕ}
    (cfg : Settings p kind w b l) where
  counted_first :
      (t : Time)
      → counted p kind t zero_state ≡ record {
        window_start = some t;
        count = 1;
        blocked_until = if leb l 1 then some (t + b * 1000000) else none;
      }
  unfolding counted open_window add
  counted_first t = ground (arith, millis-pos w cfg.window_fits, millis-pos b cfg.block_fits)

  counted_within :
      (start t : Time) (c : ℕ) (u : Option Time)
      → InWindow start w t
      → counted p kind t (record { window_start = some start; count = c; blocked_until = u })
        ≡ record {
          window_start = some start;
          count = suc c;
          blocked_until = if leb l (suc c) then some (t + b * 1000000) else u;
        }
  unfolding counted open_window add sub
  counted_within start t c u h =
      ground (arith, millis-pos w cfg.window_fits, millis-pos b cfg.block_fits)

  abbrev after_events : Time → Time → ℕ → StormState
  after_events start now c = record {
    window_start = some start;
    count = c;
    blocked_until = if leb l c then some (now + b * 1000000) else none;
  }

  counted-after :
      (start now : Time) (c : ℕ) (t : Time)
      → InWindow start w t
      → counted p kind t (after_events start now c) ≡ after_events start t (suc c)
  counted-after start now c t h =
      ground (arith, counted_within start t c (if leb l c then some (now + b * 1000000) else none))

  count_all_within :
      (start now : Time) (c : ℕ) (ts : List Time)
      → All (InWindow start w) ts
      → count_all p kind (after_events start now c) ts
        ≡ after_events start (last_of now ts) (c + length ts)
  unfolding count_all
  count_all_within start now c [] h = ground arith
  count_all_within start now c (t ∷ ts) (h, hs) =
      ap (λ st. count_all p kind st ts) (counted-after start now c t h)
      ∙ count_all_within start t (suc c) ts hs
      ∙ ap (after_events start (last_of t ts)) (omega arith)

  count_all_zero :
      (first : Time) (ts : List Time)
      → All (InWindow first w) ts
      → count_all p kind zero_state (first ∷ ts)
        ≡ after_events first (last_of first ts) (suc (length ts))
  unfolding count_all
  count_all_zero first ts h =
      ap (λ st. count_all p kind st ts) (counted_first first)
      ∙ count_all_within first first 1 ts h
      ∙ ap (after_events first (last_of first ts)) (omega arith)

-- Events of one kind that fall into one window block it exactly when there are at least as many as
-- the limit, and then until the block time after the last of them; here the kind had no entry
-- before, and the numbers of the policy are positive and wrap no duration.
pub storm_threshold :
    (s : ConnectorStorms) (kind : StormKind) (w b l : ℕ) (first : Time) (ts : List Time)
    (now : Time)
    → Settings s.policy kind w b l
    → state_of s kind ≡ zero_state
    → All (InWindow first w) ts
    → blocked (record_all s kind (first ∷ ts)) kind now
      ≡ (leb l (suc (length ts)) && ltb now (last_of first ts + b * 1000000))
unfolding blocked
storm_threshold s kind w b l first ts now cfg z h =
    rw (state_of-record_all s kind (first ∷ ts), z, count_all_zero cfg first ts h) (ground arith)
