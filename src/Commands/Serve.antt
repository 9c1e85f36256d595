-- ===== src/Commands/Serve.antt =====
-- How the command `serve` of internal/app/command.go starts: what it does before it listens.
use authrim_wordwarden.Prelude.{List, Option, none, some, Text, lit, map}
use authrim_wordwarden.GoTime.{Time}
use authrim_wordwarden.Hmac.Canonical.{Crypto}
use authrim_wordwarden.Http.State.{Handler, new_handler}
use authrim_wordwarden.Relay.State.{RelayClient}
use authrim_wordwarden.Heartbeat.{Codec, HeartbeatClient}
use authrim_wordwarden.Instance.{StateDirectory, load_or_create_instance_id}
use authrim_wordwarden.Config.{Config}
use authrim_wordwarden.Config.Patterns.{Platform}
use authrim_wordwarden.Config.Loading.{load_file}
use authrim_wordwarden.Secrets.Resolving.{Host}
use authrim_wordwarden.Commands.{
  Runtime, Process, build_tenant_runtimes, start_relay_clients, start_heartbeat_clients,
}

-- Where the command runs. `decode` reads YAML, `random` gives the bytes for an identity.
pub record Machine : Type 0 where
  pub host : Host
  pub platform : Platform
  pub codec : Codec
  pub crypto : Crypto
  pub decode : Text → Option Config
  pub random : Option Text
  pub directory : StateDirectory
  pub now : Time

pub record Started : Type 0 where
  pub handler : Handler
  pub relays : List RelayClient
  pub heartbeats : List HeartbeatClient

abbrev pub program_version : Text
program_version = lit "0.1.0-beta.1"

unfoldable pub process_of : Machine → Text → Process
process_of machine instance_id = record {
  host = machine.host;
  platform = machine.platform;
  codec = machine.codec;
  crypto = machine.crypto;
  version = program_version;
  instance_id = instance_id;
  started_at = machine.now;
  now = machine.now;
}

infixl 5 ◌>>=◌
abbrev ◌>>=◌ : {A B : Type 0} → Option A → (A → Option B) → Option B
none >>= f = none
some a >>= f = f a

-- Behind the identity.
unfoldable pub start_clients : Process → Config → List (Text × Runtime) → Option Started
start_clients process cfg runtimes = start_relay_clients process runtimes cfg.tenants >>= λ relays.
    start_heartbeat_clients process cfg.tenants >>= λ heartbeats. some (record {
      handler =
          new_handler program_version (map (λ e. (e.0, e.1.0)) runtimes)
            cfg.server.expose_operations;
      relays = relays;
      heartbeats = heartbeats;
    })

-- Up to the server; an error is `none`.
unfoldable pub prepare : Machine → Text → Option Started
prepare machine path = load_file machine.platform machine.decode machine.host path >>= λ cfg.
    build_tenant_runtimes machine.host cfg >>= λ runtimes.
    (load_or_create_instance_id machine.platform.unicode cfg.server.state_dir machine.random
      machine.directory).0
    >>= λ instance_id. start_clients (process_of machine instance_id) cfg runtimes
