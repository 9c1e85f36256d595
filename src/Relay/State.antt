-- ===== src/Relay/State.antt =====
-- The state of the client of internal/adapters/relay/client.go, and the calls that change it. Its
-- replay cache and its storms repeat the code of the HTTP handler's, and are those of Replay and
-- Storm.
use authrim_wordwarden.Prelude.{
  ℕ, zero, suc, ◌-◌, ◌&&◌, ◌++◌, not, Bool, true, false, mul_int, lt_int, List, [], ◌∷◌, Option,
  none, some, Text, lit, is_nil, if◌then◌else◌, ltb, ℤ, pos, negsuc, le_int,
}
use authrim_wordwarden.GoTime.{Time, Duration}
use authrim_wordwarden.GoUrl.{UrlParser}
use authrim_wordwarden.Audit.{Event}
use authrim_wordwarden.Storm.{
  StormProtectionPolicy, ConnectorStorms, StormKind, new_connector_storms, blocked, record_event,
  reset,
}
use authrim_wordwarden.Replay.{ReplayCache, new_replay_cache}
use authrim_wordwarden.Relay.Address.{parse_relay_url, validate_relay_url_binding}

-- `Config`. The directory client answers from outside, the audit sink is in the client's state, and
-- the logger is left out.
pub record RelayOptions : Type 0 where
  pub url : Text
  pub tenant_id : Text
  pub connector_id : Text
  pub instance_id : Text
  pub display_name : Text
  pub version : Text
  pub started_at : Option Time
  pub config_fingerprint : Text
  pub config_categories : List Text
  pub key_id : Text
  pub secret : Text
  pub audit_hash_secret : Text
  pub protection : StormProtectionPolicy
  pub request_timeout : Duration
  pub concurrency : ℤ
  pub reconnect_min : Duration
  pub reconnect_max : Duration

-- `used` is how many values the channel `limit` holds, of the capacity `config.concurrency`. The
-- audit events stand with the newest first.
pub record RelayClient : Type 0 where
  pub config : RelayOptions
  pub used : ℕ
  pub replay : ReplayCache
  pub storms : ConnectorStorms
  pub audit : List Event

abbrev or_duration : Duration → Duration → Duration
or_duration value fallback = if le_int value (pos 0) then fallback else value

abbrev or_text : Text → Text → Text
or_text value fallback = if is_nil value then fallback else value

abbrev or_now : Option Time → Time → Option Time
or_now none now = some now
or_now (some t) now = some t

abbrev zeros : ℕ → Text
zeros zero = []
zeros (suc n) = b'0' ∷ zeros n

-- The defaults that `NewClient` writes.
unfoldable pub with_defaults : RelayOptions → Time → RelayOptions
with_defaults o now = record o {
  request_timeout = or_duration o.request_timeout (pos 2500000000);
  concurrency = or_duration o.concurrency (pos 8);
  reconnect_min = or_duration o.reconnect_min (pos 1000000000);
  reconnect_max = or_duration o.reconnect_max (pos 30000000000);
  version = or_text o.version (lit "unknown");
  started_at = or_now o.started_at now;
  config_fingerprint = or_text o.config_fingerprint (lit "sha256:" ++ zeros 64);
}

abbrev is_some {ℓ} : {A : Type ℓ} → Option A → Bool
is_some none = false
is_some (some a) = true

-- Does `NewClient` accept the options?
unfoldable pub options_valid : UrlParser → RelayOptions → Bool
options_valid urls o =
    not (is_nil o.url)
    && (is_some (parse_relay_url urls o.url)
        && (not (is_nil o.tenant_id)
            && (not (is_nil o.connector_id)
                && (not (is_nil o.instance_id)
                    && (validate_relay_url_binding urls o.url o.tenant_id o.connector_id
                        && (not (is_nil o.key_id) && not (is_nil o.secret)))))))

unfoldable pub new_client : UrlParser → RelayOptions → Time → Option RelayClient
new_client urls o now =
    if not (options_valid urls o)
    then none
    else some (record {
      config = with_defaults o now;
      used = 0;
      replay = new_replay_cache (pos 300000000000);
      storms = new_connector_storms o.protection;
      audit = [];
    })

abbrev pub limit_of : RelayOptions → ℕ
limit_of o = elim o.concurrency [ pos n ↦ n | negsuc n ↦ 0 ]

-- The send on `limit`, which gives nothing if the channel is full.
unfoldable pub take_limit : RelayClient → Option RelayClient
take_limit c =
    if ltb c.used (limit_of c.config) then some (record c { used = suc c.used }) else none

-- The deferred receive.
unfoldable pub free_limit : RelayClient → RelayClient
free_limit c = record c { used = c.used - 1 }

-- A sink's error is ignored.
unfoldable pub emit_event : RelayClient → Event → RelayClient
emit_event c event = record c { audit = event ∷ c.audit }

unfoldable pub relay_storm_blocked : RelayClient → StormKind → Time → Bool
relay_storm_blocked c kind now = blocked c.storms kind now

unfoldable pub record_relay_storm : RelayClient → StormKind → Time → RelayClient
record_relay_storm c kind now = record c { storms = record_event c.storms kind now }

unfoldable pub reset_relay_storm : RelayClient → StormKind → RelayClient
reset_relay_storm c kind = record c { storms = reset c.storms kind }

-- The wait of `Run` behind a wait; the doubling wraps in int64.
unfoldable pub next_backoff : RelayOptions → Duration → Duration
next_backoff o backoff =
    let doubled = mul_int backoff 2 in
    if lt_int o.reconnect_max doubled then o.reconnect_max else doubled

-- The wait before the attempt with the number `n`, from the first repetition on.
unfoldable pub backoff_at : RelayOptions → ℕ → Duration
backoff_at o zero = o.reconnect_min
backoff_at o (suc n) = next_backoff o (backoff_at o n)
