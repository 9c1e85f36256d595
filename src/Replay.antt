-- ===== src/Replay.antt =====
-- The replay cache of internal/ports/httpapi/server.go, which internal/adapters/relay/client.go
-- repeats, and its keys.
pub mod History
pub mod Window
use authrim_wordwarden.Prelude.{
  Bool, true, false, Option, none, some, List, [], ◌∷◌, ◌++◌, not, Text, lit, Eq, text_eq, keep_if,
  lookup, insert, ◌==◌,
}
use authrim_wordwarden.GoTime.{Time, Duration, after, add}

-- `entries` maps a key to the instant at which it expires.
pub record ReplayCache : Type 0 where
  pub ttl : Duration
  pub entries : List (Text × Time)

unfoldable pub new_replay_cache : Duration → ReplayCache
new_replay_cache ttl = record { ttl = ttl; entries = [] }

-- The loop that deletes the expired entries.
unfoldable pub sweep : Time → List (Text × Time) → List (Text × Time)
sweep now = keep_if λ entry. not (after now entry.1)

-- `Remember`, with the clock's reading.
unfoldable pub remember : ReplayCache → Text → Time → ReplayCache × Bool
remember c key now =
    let swept = sweep now c.entries in
    elim (lookup key swept) [
      | some _ ↦ (record c { entries = swept }, false)
      | none ↦ (record c { entries = insert key (add now c.ttl) swept }, true)
    ]

-- The key under which the HTTP handler remembers a request.
unfoldable pub replay_key : Text → Text → Text → Text → Text
replay_key connector_id key_id request_id nonce =
    connector_id ++ lit ":" ++ (key_id ++ lit ":" ++ (request_id ++ lit ":" ++ nonce))
