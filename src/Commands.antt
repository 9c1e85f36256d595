-- ===== src/Commands.antt =====
-- The commands of internal/app/command.go: how `serve` builds what serves each tenant.
pub mod Runtimes
pub mod Starting
pub mod Versions
pub mod Parts
pub mod Older
pub mod Order
pub mod Feed
pub mod Trust
pub mod Doctor
pub mod Ready
pub mod Diagnostics
pub mod Redaction
pub mod Inputs
pub mod LdapTest
pub mod Serve
pub mod Prepared
use authrim_wordwarden.Prelude.{
  Bool, true, false, not, List, [], ◌∷◌, Option, none, some, Text, lit, text_eq, ◌==◌, is_nil,
  if◌then◌else◌, insert, lookup,
}
use authrim_wordwarden.GoTime.{Time, millis}
use authrim_wordwarden.Config.Patterns.{Platform}
use authrim_wordwarden.Hmac.Canonical.{Crypto}
use authrim_wordwarden.Hmac.Verifier.{Key, KeySet}
use authrim_wordwarden.Storm.{StormProtectionPolicy}
use authrim_wordwarden.Http.State.{TenantRuntime}
use authrim_wordwarden.Ldap.{Client}
use authrim_wordwarden.Config.{Config, TenantConfig, HmacKeyConfig, ProtectionConfig}
use authrim_wordwarden.Secrets.Resolving.{Host, resolve_secret_bytes, resolve_optional_secret_bytes}
use authrim_wordwarden.Heartbeat.{Codec, HeartbeatClient, categories, config_fingerprint}
use authrim_wordwarden.Relay.State.{RelayOptions, RelayClient, new_client}

-- The handler's part of a runtime, and its directory client.
abbrev pub Runtime : Type 0
Runtime = TenantRuntime × Client

abbrev pub storm_policy : ProtectionConfig → StormProtectionPolicy
storm_policy p = record {
  window_ms = p.storm_window_ms;
  block_ms = p.storm_block_ms;
  malformed_request_limit = p.malformed_request_limit;
  replay_limit = p.replay_limit;
  directory_error_limit = p.directory_error_limit;
}

infixl 5 ◌>>=◌
abbrev ◌>>=◌ : {A B : Type 0} → Option A → (A → Option B) → Option B
none >>= f = none
some a >>= f = f a

-- A previous key that is configured must resolve.
unfoldable pub previous_key : Host → Option HmacKeyConfig → Option (Option Key)
previous_key host none = some none
previous_key host (some key) = resolve_secret_bytes host key.secret_ref >>= λ secret.
    some (some (record { kid = key.kid; secret = secret }))

abbrev pub runtime_of : TenantConfig → Text → Option Key → Text → Text → Runtime
runtime_of t active previous audit_hash bind_password = (
  record {
    tenant_id = t.tenant_id;
    connector_id = t.connector_id;
    keys = record {
      active = record { kid = t.authrim.hmac_keys.active.kid; secret = active };
      previous = previous;
    };
    audit_hash_secret = audit_hash;
    concurrency_limit = t.protection.max_concurrent_requests;
    request_timeout_ms = t.timeouts.request_ms;
    storm_protection = storm_policy t.protection;
  },
  record { config = t.ldap; bind_password = bind_password; timeouts = t.timeouts },
)

-- The body of the loop over the tenants; an error is `none`.
unfoldable pub tenant_runtime : Host → TenantConfig → Option Runtime
tenant_runtime host t =
    resolve_secret_bytes host t.authrim.hmac_keys.active.secret_ref >>= λ active.
    previous_key host t.authrim.hmac_keys.previous >>= λ previous.
    resolve_secret_bytes host t.authrim.audit_hash_secret_ref >>= λ audit_hash.
    resolve_optional_secret_bytes host t.ldap.bind_password_ref >>= λ bind_password.
    some (runtime_of t active previous audit_hash bind_password)

-- The loop, over the map built so far.
unfoldable pub build_runtimes :
    Host → List TenantConfig → List (Text × Runtime) → Option (List (Text × Runtime))
build_runtimes host [] runtimes = some runtimes
build_runtimes host (t ∷ tenants) runtimes = elim (tenant_runtime host t) [
  | none ↦ none
  | some runtime ↦ build_runtimes host tenants (insert t.connector_id runtime runtimes)
]

unfoldable pub build_tenant_runtimes : Host → Config → Option (List (Text × Runtime))
build_tenant_runtimes host cfg = build_runtimes host cfg.tenants []

-- What the process is started with, beside its configuration.
pub record Process : Type 0 where
  pub host : Host
  pub platform : Platform
  pub codec : Codec
  pub crypto : Crypto
  pub version : Text
  pub instance_id : Text
  pub started_at : Time
  pub now : Time

unfoldable pub relay_options : Process → TenantConfig → Runtime → Text → RelayOptions
relay_options process t (runtime, _) secret = record {
  url = t.authrim.relay.url;
  tenant_id = t.tenant_id;
  connector_id = t.connector_id;
  instance_id = process.instance_id;
  display_name = t.authrim.heartbeat.display_name;
  version = process.version;
  started_at = some process.started_at;
  config_fingerprint = config_fingerprint process.codec process.crypto t;
  config_categories = categories;
  key_id = t.authrim.hmac_keys.active.kid;
  secret = secret;
  audit_hash_secret = runtime.audit_hash_secret;
  protection = storm_policy t.protection;
  request_timeout = millis runtime.request_timeout_ms;
  concurrency = runtime.concurrency_limit;
  reconnect_min = millis t.authrim.relay.reconnect_min_ms;
  reconnect_max = millis t.authrim.relay.reconnect_max_ms;
}

-- The body of the loop for a tenant whose relay is enabled.
unfoldable pub relay_client : Process → List (Text × Runtime) → TenantConfig → Option RelayClient
relay_client process runtimes t = lookup t.connector_id runtimes >>= λ runtime.
    resolve_secret_bytes process.host t.authrim.hmac_keys.active.secret_ref >>= λ secret.
    new_client process.platform.urls (relay_options process t runtime secret) process.now

-- `startRelayClients`: the clients that are started, or an error. An error leaves those before it
-- running, which the end of the command stops.
unfoldable pub start_relay_clients :
    Process → List (Text × Runtime) → List TenantConfig → Option (List RelayClient)
start_relay_clients process runtimes [] = some []
start_relay_clients process runtimes (t ∷ tenants) = elim t.authrim.relay.enabled [
  | false ↦ start_relay_clients process runtimes tenants
  | true ↦ relay_client process runtimes t >>= λ client.
      start_relay_clients process runtimes tenants >>= λ clients. some (client ∷ clients)
]

-- `startHeartbeatClients`: the clients that are started, or an error.
unfoldable pub start_heartbeat_clients : Process → List TenantConfig → Option (List HeartbeatClient)
start_heartbeat_clients process [] = some []
start_heartbeat_clients process (t ∷ tenants) = elim t.authrim.heartbeat.enabled [
  | false ↦ start_heartbeat_clients process tenants
  | true ↦ resolve_secret_bytes process.host t.authrim.heartbeat.key.secret_ref >>= λ secret.
      start_heartbeat_clients process tenants >>= λ clients. some (
        record {
          tenant = t;
          instance_id = process.instance_id;
          started_at = process.started_at;
          key_id = t.authrim.heartbeat.key.kid;
          secret = secret;
        }
        ∷ clients)
]

unfoldable pub find_tenant : List TenantConfig → Text → Option TenantConfig
find_tenant [] tenant_id = none
find_tenant (t ∷ tenants) tenant_id =
    let rest = find_tenant tenants tenant_id in if t.tenant_id == tenant_id then some t else rest
