-- ===== src/Storm/Ending.antt =====
-- Blocks end, of internal/ports/httpapi/storm.go.
use authrim_wordwarden.Prelude.{
  ℕ, ◌+◌, ◌*◌, ◌≤◌, ◌≡◌, false, some, List, [], ◌∷◌, pos, All, arith, Option-cases, inl, inr,
}
use authrim_wordwarden.GoTime.{Time, millis-pos, max_millis, add}
use authrim_wordwarden.Storm.Counting.{put_state-policy}
use authrim_wordwarden.Storm.{
  StormProtectionPolicy, StormKind, malformed, replay, directory_error, StormState, zero_state,
  ConnectorStorms, state_of, put_state, blocked, counted, open_window, record_event, reset,
  new_connector_storms, default_storm_protection_policy,
}

-- What a handler does to the storms of a connector.
pub data StormEvent : Type 0 where
  recorded : StormKind → Time → StormEvent
  was_reset : StormKind → StormEvent

unfoldable pub apply : ConnectorStorms → StormEvent → ConnectorStorms
apply s (recorded kind now) = record_event s kind now
apply s (was_reset kind) = reset s kind

unfoldable pub apply_all : ConnectorStorms → List StormEvent → ConnectorStorms
apply_all s [] = s
apply_all s (e ∷ es) = apply_all (apply s e) es

abbrev pub NotLater : Time → StormEvent → Type 0
NotLater t (recorded kind now) = now ≤ t
NotLater t (was_reset kind) = Unit

abbrev EndsBy : Time → StormState → Type 0
EndsBy t st = (until : Time) → st.blocked_until ≡ some until → until ≤ t

abbrev AllEndBy : Time → ConnectorStorms → Type 0
AllEndBy t s = (kind : StormKind) → EndsBy t (state_of s kind)

put_state-EndsBy :
    (t : Time) (s : ConnectorStorms) (kind : StormKind) (st : StormState)
    → EndsBy t st
    → AllEndBy t s
    → AllEndBy t (put_state s kind st)
unfolding state_of put_state
put_state-EndsBy t s malformed st p h malformed = p
put_state-EndsBy t s replay st p h replay = p
put_state-EndsBy t s directory_error st p h directory_error = p
put_state-EndsBy t s malformed st p h j = h j
put_state-EndsBy t s replay st p h j = h j
put_state-EndsBy t s directory_error st p h j = h j

zero_state-EndsBy : (t : Time) → EndsBy t zero_state
zero_state-EndsBy t until e = cc

counted-EndsBy :
    (p : StormProtectionPolicy) (kind : StormKind) (b t now : ℕ) (st : StormState)
    → p.block_ms ≡ pos b
    → b ≤ max_millis
    → now ≤ t
    → EndsBy (t + b * 1000000) st
    → EndsBy (t + b * 1000000) (counted p kind now st)
unfolding counted open_window add
counted-EndsBy p kind b t now st e fits h k until q = ground (arith, millis-pos b fits, k until)

apply-AllEndBy :
    (s : ConnectorStorms) (b t : ℕ) (e : StormEvent)
    → s.policy.block_ms ≡ pos b
    → b ≤ max_millis
    → NotLater t e
    → AllEndBy (t + b * 1000000) s
    → AllEndBy (t + b * 1000000) (apply s e)
unfolding apply record_event reset
apply-AllEndBy s b t (recorded kind now) f fits h k =
    put_state-EndsBy _ s kind _
      (counted-EndsBy s.policy kind b t now (state_of s kind) f fits h (k kind)) k
apply-AllEndBy s b t (was_reset kind) f fits h k =
    put_state-EndsBy _ s kind zero_state (zero_state-EndsBy _) k

apply-policy : (s : ConnectorStorms) (e : StormEvent) → (apply s e).policy ≡ s.policy
unfolding apply record_event reset
apply-policy s (recorded kind now) = put_state-policy s kind _
apply-policy s (was_reset kind) = put_state-policy s kind _

apply_all-AllEndBy :
    (s : ConnectorStorms) (b t : ℕ) (es : List StormEvent)
    → s.policy.block_ms ≡ pos b
    → b ≤ max_millis
    → All (NotLater t) es
    → AllEndBy (t + b * 1000000) s
    → AllEndBy (t + b * 1000000) (apply_all s es)
unfolding apply_all
apply_all-AllEndBy s b t [] f fits h k = k
apply_all-AllEndBy s b t (e ∷ es) f fits (h, hs) k =
    apply_all-AllEndBy (apply s e) b t es (rw (apply-policy s e) f) fits hs
      (apply-AllEndBy s b t e f fits h k)

new-AllEndBy : (p : StormProtectionPolicy) (t : Time) → AllEndBy t (new_connector_storms p)
unfolding new_connector_storms state_of
new-AllEndBy p t malformed = zero_state-EndsBy t
new-AllEndBy p t replay = zero_state-EndsBy t
new-AllEndBy p t directory_error = zero_state-EndsBy t

-- No kind stays blocked for longer than the block time after the last event: whatever a connector's
-- storms recorded and reset since they were made, in whatever order, if no event was later than `t`
-- then no kind is blocked from `t` plus the block time on. The block time must wrap no duration.
pub storm_block_ends :
    (p : StormProtectionPolicy) (b t : ℕ) (es : List StormEvent) (kind : StormKind) (now : Time)
    → (default_storm_protection_policy p).block_ms ≡ pos b
    → b ≤ max_millis
    → All (NotLater t) es
    → t + b * 1000000 ≤ now
    → blocked (apply_all (new_connector_storms p) es) kind now ≡ false
unfolding blocked
storm_block_ends p b t es kind now f fits h late =
    let ends =
      apply_all-AllEndBy (new_connector_storms p) b t es (unfold new_connector_storms in f) fits h
        (new-AllEndBy p _) kind in
    elim (Option-cases (state_of (apply_all (new_connector_storms p) es) kind).blocked_until) [
      | inl never ↦ rw never
      | inr (until, e) ↦ rw e (ground (arith, ends until e))
    ]
