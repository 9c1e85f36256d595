-- ===== src/Commands/Prepared.antt =====
-- When the command `serve` of internal/app/command.go gets to listen.
use authrim_wordwarden.Prelude.{
  ◌≡◌, refl, true, false, List, [], ◌∷◌, some, Text, lit, map, is_nil, length, keep_if, All,
}
use authrim_wordwarden.GoText.Encoding.{has_prefix}
use authrim_wordwarden.Http.State.{new_handler}
use authrim_wordwarden.Instance.{StateDirectory, instance_id_matches, load_or_create_instance_id}
use authrim_wordwarden.Instance.Stable.{IsRandom, load_or_create_instance_id_again}
use authrim_wordwarden.Heartbeat.{HeartbeatClient}
use authrim_wordwarden.Config.{Config}
use authrim_wordwarden.Config.Loading.{load_file, load_file-apply_defaults}
use authrim_wordwarden.Commands.{Runtime, build_tenant_runtimes, start_heartbeat_clients}
use authrim_wordwarden.Commands.Starting.{HasSecret, start_relay_clients_total}
use authrim_wordwarden.Commands.Serve.{
  Machine, Started, program_version, process_of, start_clients, prepare,
}

identity_filled : (id : Text) → instance_id_matches id ≡ true → is_nil id ≡ false
unfolding instance_id_matches has_prefix lit
identity_filled [] h = cc
identity_filled (c ∷ id) h = refl

-- Where the configuration loads, the runtimes are built, the identity is loaded or made from sixteen
-- random bytes, every tenant's active secret is not empty and the heartbeats start, `serve` gets to
-- its server: with a handler of these runtimes, a relay client for every tenant whose relay is
-- enabled, and these heartbeats.
pub prepare_total :
    (machine : Machine) (path : Text) (cfg : Config) (runtimes : List (Text × Runtime)) (id : Text)
    (after : StateDirectory) (beats : List HeartbeatClient)
    → load_file machine.platform machine.decode machine.host path ≡ some cfg
    → build_tenant_runtimes machine.host cfg ≡ some runtimes
    → IsRandom machine.random
    → load_or_create_instance_id machine.platform.unicode cfg.server.state_dir machine.random
        machine.directory
      ≡ (some id, after)
    → All (HasSecret machine.host) cfg.tenants
    → start_heartbeat_clients (process_of machine id) cfg.tenants ≡ some beats
    → (started : Started) × (prepare machine path ≡ some started)
      × (started.handler
          ≡ new_handler program_version
              (map (λ e. (e.0, e.1.0)) runtimes)
              cfg.server.expose_operations)
      × (length started.relays ≡ length (keep_if (λ t. t.authrim.relay.enabled) cfg.tenants))
      × (started.heartbeats ≡ beats)
unfolding prepare start_clients process_of
prepare_total machine path cfg runtimes id after beats loaded built random identity secrets
      beating =
    let (raw, settled, valid) =
      load_file-apply_defaults machine.platform machine.decode machine.host path cfg loaded in
    let (matches, again) =
      load_or_create_instance_id_again machine.platform.unicode cfg.server.state_dir machine.random
        machine.random machine.directory after id random identity in
    let (relays, started, many) =
      start_relay_clients_total (process_of machine id) cfg runtimes (identity_filled id matches)
        valid built secrets in
    (
      record {
        handler =
            new_handler program_version (map (λ e. (e.0, e.1.0)) runtimes)
              cfg.server.expose_operations;
        relays = relays;
        heartbeats = beats;
      },
      rw (loaded, built, identity, started, beating) refl,
      refl,
      many,
      refl,
    )
