-- ===== src/Storm.antt =====
-- internal/ports/httpapi/storm.go: the limits on malformed, replayed and failing requests. The
-- type relayStorms of internal/adapters/relay/client.go has the same code.
pub mod Policy
pub mod Counting
pub mod Ending
use authrim_wordwarden.Prelude.{
  ℕ, suc, Bool, true, false, Option, none, some, if◌then◌else◌, not, ℤ, pos, le_int, lt_int, ◌&&◌,
}
use authrim_wordwarden.GoTime.{Time, Duration, before, add, sub, millis}

-- The fields are Go's int.
pub record StormProtectionPolicy : Type 0 where
  pub window_ms : ℤ
  pub block_ms : ℤ
  pub malformed_request_limit : ℤ
  pub replay_limit : ℤ
  pub directory_error_limit : ℤ

-- The three constants of type stormKind; no other value is built.
pub data StormKind : Type 0 where
  malformed replay directory_error : StormKind

-- `none` is the zero time. The count starts at 0 in each window and does not reach 2 ^ 63.
pub record StormState : Type 0 where
  pub window_start : Option Time
  pub count : ℕ
  pub blocked_until : Option Time

abbrev pub zero_state : StormState
zero_state = record { window_start = none; count = 0; blocked_until = none }

-- `states` is a map; a kind without an entry reads as the zero state, and so it is kept here.
pub record ConnectorStorms : Type 0 where
  pub policy : StormProtectionPolicy
  pub malformed_state : StormState
  pub replay_state : StormState
  pub directory_error_state : StormState

abbrev or_default : ℤ → ℕ → ℤ
or_default value fallback = if le_int value (pos 0) then pos fallback else value

unfoldable pub default_storm_protection_policy : StormProtectionPolicy → StormProtectionPolicy
default_storm_protection_policy p = record {
  window_ms = or_default p.window_ms 10000;
  block_ms = or_default p.block_ms 30000;
  malformed_request_limit = or_default p.malformed_request_limit 20;
  replay_limit = or_default p.replay_limit 10;
  directory_error_limit = or_default p.directory_error_limit 5;
}

unfoldable pub new_connector_storms : StormProtectionPolicy → ConnectorStorms
new_connector_storms policy = record {
  policy = default_storm_protection_policy policy;
  malformed_state = zero_state;
  replay_state = zero_state;
  directory_error_state = zero_state;
}

-- `s.states[kind]`
unfoldable pub state_of : ConnectorStorms → StormKind → StormState
state_of s malformed = s.malformed_state
state_of s replay = s.replay_state
state_of s directory_error = s.directory_error_state

-- `s.states[kind] = state`
unfoldable pub put_state : ConnectorStorms → StormKind → StormState → ConnectorStorms
put_state s malformed state = record s { malformed_state = state }
put_state s replay state = record s { replay_state = state }
put_state s directory_error state = record s { directory_error_state = state }

unfoldable pub limit : StormProtectionPolicy → StormKind → ℤ
limit p malformed = p.malformed_request_limit
limit p replay = p.replay_limit
limit p directory_error = p.directory_error_limit

-- `!state.blockedUntil.IsZero() && now.Before(state.blockedUntil)`
abbrev pub is_before : Time → Option Time → Bool
is_before now none = false
is_before now (some until) = before now until

unfoldable pub blocked : ConnectorStorms → StormKind → Time → Bool
unfolding state_of
blocked s kind now = is_before now (state_of s kind).blocked_until

-- Has the window ended, or none begun?
abbrev pub window_over : Duration → Time → Option Time → Bool
window_over window now none = true
window_over window now (some start) = lt_int window (sub now start)

unfoldable pub open_window : Duration → Time → StormState → StormState
open_window window now state =
    if window_over window now state.window_start
    then record state { window_start = some now; count = 0 }
    else state

-- The state that `record` stores.
unfoldable pub counted : StormProtectionPolicy → StormKind → Time → StormState → StormState
unfolding open_window limit
counted p kind now state =
    let opened = open_window (millis p.window_ms) now state in
    let more = record opened { count = suc opened.count } in
    if le_int (limit p kind) (pos more.count)
    then record more { blocked_until = some (add now (millis p.block_ms)) }
    else more

-- The method `record`, whose name is a keyword here.
unfoldable pub record_event : ConnectorStorms → StormKind → Time → ConnectorStorms
unfolding put_state state_of
record_event s kind now = put_state s kind (counted s.policy kind now (state_of s kind))

-- `delete(s.states, kind)`
unfoldable pub reset : ConnectorStorms → StormKind → ConnectorStorms
unfolding put_state
reset s kind = put_state s kind zero_state
