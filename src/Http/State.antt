-- ===== src/Http/State.antt =====
-- The state of the handler of internal/ports/httpapi/server.go, and the calls that change it.
use authrim_wordwarden.Prelude.{
  ℕ, zero, suc, ◌-◌, Bool, false, List, [], ◌∷◌, Option, none, some, Text, text_eq, if◌then◌else◌,
  ltb, ℤ, pos, negsuc, lookup, insert, map,
}
use authrim_wordwarden.GoTime.{Time, Duration}
use authrim_wordwarden.GoText.{Unicode}
use authrim_wordwarden.Audit.{Event}
use authrim_wordwarden.Storm.{
  StormProtectionPolicy, ConnectorStorms, StormKind, new_connector_storms, blocked, record_event,
  reset,
}
use authrim_wordwarden.Replay.{ReplayCache, new_replay_cache}
use authrim_wordwarden.Hmac.Canonical.{Crypto}
use authrim_wordwarden.Hmac.Verifier.{KeySet}
use authrim_wordwarden.Http.Metrics.{Counters, record_metric}
use authrim_wordwarden.Http.Messages.{VerifyPasswordRequest}

-- What is not this program's code: the tables of Unicode, the hash functions, `time.Parse` for
-- RFC 3339, and the JSON decoder, which gives a request if the body is one object with known
-- fields alone and nothing behind it.
pub record Env : Type 0 where
  pub unicode : Unicode
  pub crypto : Crypto
  pub parse_rfc3339 : Text → Option Time
  pub decode_request : Text → Option VerifyPasswordRequest

-- The verifier of a tenant is the one that `NewVerifier` makes of its keys; the directory client
-- answers from outside. The limits are Go's int.
pub record TenantRuntime : Type 0 where
  pub tenant_id : Text
  pub connector_id : Text
  pub keys : KeySet
  pub audit_hash_secret : Text
  pub concurrency_limit : ℤ
  pub request_timeout_ms : ℤ
  pub storm_protection : StormProtectionPolicy

-- A channel of empty values: its capacity, and how many it holds.
pub record Slots : Type 0 where
  pub capacity : ℕ
  pub used : ℕ

-- The audit sink keeps its events, the newest first.
pub record Handler : Type 0 where
  pub version : Text
  pub tenants : List (Text × TenantRuntime)
  pub replay : ReplayCache
  pub audit : List Event
  pub limits : List (Text × Slots)
  pub storms : List (Text × ConnectorStorms)
  pub metrics : Counters
  pub expose_operations : Bool

-- 5 * time.Minute
abbrev pub five_minutes : Duration
five_minutes = pos 300000000000

abbrev pub capacity_of : ℤ → ℕ
capacity_of (pos zero) = 8
capacity_of (pos (suc n)) = suc n
capacity_of (negsuc n) = 8

abbrev pub new_slots : Text × TenantRuntime → Text × Slots
new_slots (connector_id, runtime) =
    (connector_id, record { capacity = capacity_of runtime.concurrency_limit; used = 0 })

abbrev new_storms : Text × TenantRuntime → Text × ConnectorStorms
new_storms (connector_id, runtime) = (connector_id, new_connector_storms runtime.storm_protection)

-- `NewHandler`: each connector of the map `tenants` gets a channel and its storms.
unfoldable pub new_handler : Text → List (Text × TenantRuntime) → Bool → Handler
unfolding new_replay_cache
new_handler version tenants expose_operations = record {
  version = version;
  tenants = tenants;
  replay = new_replay_cache five_minutes;
  audit = [];
  limits = map new_slots tenants;
  storms = map new_storms tenants;
  metrics = [];
  expose_operations = expose_operations;
}

-- A sink's error is ignored.
unfoldable pub emit : Handler → Event → Handler
emit h event = record h { metrics = record_metric h.metrics event; audit = event ∷ h.audit }

unfoldable pub acquire : Handler → Text → Option Handler
acquire h connector_id = elim (lookup connector_id h.limits) [
  | none ↦ some h
  | some slots ↦
      if ltb slots.used slots.capacity
      then some (record h {
        limits = insert connector_id (record slots { used = suc slots.used }) h.limits;
      })
      else none
]

-- The function that `acquire` returns.
unfoldable pub release : Handler → Text → Handler
release h connector_id = elim (lookup connector_id h.limits) [
  | none ↦ h
  | some slots ↦ record h {
    limits = insert connector_id (record slots { used = slots.used - 1 }) h.limits;
  }
]

unfoldable pub storm_blocked : Handler → Text → StormKind → Time → Bool
storm_blocked h connector_id kind now = elim (lookup connector_id h.storms) [
  | none ↦ false
  | some storms ↦ blocked storms kind now
]

-- A connector with no storms leaves the map as it is.
unfoldable pub record_storm : Handler → Text → StormKind → Time → Handler
record_storm h connector_id kind now = record h {
  storms = elim (lookup connector_id h.storms) [
    | none ↦ h.storms
    | some storms ↦ insert connector_id (record_event storms kind now) h.storms
  ];
}

unfoldable pub reset_storm : Handler → Text → StormKind → Handler
reset_storm h connector_id kind = record h {
  storms = elim (lookup connector_id h.storms) [
    | none ↦ h.storms
    | some storms ↦ insert connector_id (reset storms kind) h.storms
  ];
}
