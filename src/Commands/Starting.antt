-- ===== src/Commands/Starting.antt =====
-- The relay clients that internal/app/command.go starts.
use authrim_wordwarden.Prelude.{
  ◌≡◌, refl, true, false, List, [], ◌∷◌, some, Text, lit, is_nil, length, keep_if, All, arith,
  Bool-cases, Option-cases, inl, inr,
}
use authrim_wordwarden.GoText.Encoding.{has_prefix}
use authrim_wordwarden.Relay.Address.{validate_relay_url_binding}
use authrim_wordwarden.Relay.State.{RelayClient, options_valid, new_client}
use authrim_wordwarden.Config.{Config, TenantConfig}
use authrim_wordwarden.Config.Patterns.{connector_id_matches}
use authrim_wordwarden.Config.SafeTenants.{IsSafeTenant}
use authrim_wordwarden.Config.Validation.{validate}
use authrim_wordwarden.Config.Accepted.{validate-IsSafeTenant}
use authrim_wordwarden.Secrets.Resolving.{Host, resolve_secret_bytes}
use authrim_wordwarden.Commands.{
  Runtime, Process, relay_options, relay_client, start_relay_clients, build_tenant_runtimes,
}
use authrim_wordwarden.Commands.Runtimes.{Serves, build_tenant_runtimes-Serves}

-- The active key's secret is there and not empty.
abbrev pub HasSecret : Host → TenantConfig → Type 0
HasSecret host t =
    (secret : Text) × (resolve_secret_bytes host t.authrim.hmac_keys.active.secret_ref
      ≡ some secret)
    × (is_nil secret ≡ false)

pub connector_id_filled : (id : Text) → connector_id_matches id ≡ true → is_nil id ≡ false
unfolding connector_id_matches has_prefix lit
connector_id_filled [] h = cc
connector_id_filled (c ∷ id) h = refl

module _ (process : Process) (named : is_nil process.instance_id ≡ false) where
  relay_options_valid :
      (t : TenantConfig) (r : Runtime) (secret : Text)
      → IsSafeTenant process.platform t
      → is_nil t.authrim.relay.url ≡ false
      → validate_relay_url_binding process.platform.urls t.authrim.relay.url t.tenant_id
          t.connector_id
        ≡ true
      → is_nil secret ≡ false
      → options_valid process.platform.urls (relay_options process t r secret) ≡ true
  unfolding options_valid relay_options validate_relay_url_binding
  relay_options_valid t r secret safe filled bound kept = ground (
    arith,
    named,
    safe.tenant_named,
    safe.key_named,
    connector_id_filled t.connector_id safe.connector_named,
  )

  relay_client_made :
      (t : TenantConfig) (runtimes : List (Text × Runtime))
      → IsSafeTenant process.platform t
      → t.authrim.relay.enabled ≡ true
      → HasSecret process.host t
      → Serves process.host runtimes t
      → (c : RelayClient) × (relay_client process runtimes t ≡ some c)
  unfolding relay_client new_client
  relay_client_made t runtimes safe on (secret, resolved, kept) (r, found, own) = elim safe.relay [
    | inl off ↦ absurd (cc)
    | inr (filled, bound) ↦
        let valid = relay_options_valid t r secret safe filled bound kept in
        let options = relay_options process t r secret in
        elim (Option-cases (new_client process.platform.urls options process.now)) [
          | inl refused ↦ absurd (cc (rw (valid, new_client) at refused))
          | inr (client, made) ↦ (client, rw (found, resolved, relay_client) made)
        ]
  ]

  start_relay_clients_made :
      (tenants : List TenantConfig) (runtimes : List (Text × Runtime))
      → All (IsSafeTenant process.platform) tenants
      → All (HasSecret process.host) tenants
      → All (Serves process.host runtimes) tenants
      → (clients : List RelayClient) × (start_relay_clients process runtimes tenants ≡ some clients)
        × (length clients ≡ length (keep_if (λ t. t.authrim.relay.enabled) tenants))
  unfolding start_relay_clients
  start_relay_clients_made [] runtimes safe secrets own = ([], refl, refl)
  start_relay_clients_made (t ∷ tenants) runtimes (safe, others) (secret, secrets) (own, rest) =
      let (clients, started, many) =
        start_relay_clients_made tenants runtimes others secrets rest in
      elim (Bool-cases t.authrim.relay.enabled) [
        | inr off ↦ (clients, rw (off, start_relay_clients) started, ground arith)
        | inl on ↦
            let (client, made) = relay_client_made t runtimes safe on secret own in
            (client ∷ clients, rw (on, made, started, start_relay_clients) refl, ground arith)
      ]

-- In a process with an identity, where validation accepts the configuration, the runtimes are built
-- and every tenant's active secret is not empty, all relays start: there is a client for every
-- tenant whose relay is enabled.
pub start_relay_clients_total :
    (process : Process) (cfg : Config) (runtimes : List (Text × Runtime))
    → is_nil process.instance_id ≡ false
    → validate process.platform cfg ≡ []
    → build_tenant_runtimes process.host cfg ≡ some runtimes
    → All (HasSecret process.host) cfg.tenants
    → (clients : List RelayClient) × (start_relay_clients process runtimes cfg.tenants
        ≡ some clients)
      × (length clients ≡ length (keep_if (λ t. t.authrim.relay.enabled) cfg.tenants))
start_relay_clients_total process cfg runtimes named valid built secrets =
    start_relay_clients_made process named cfg.tenants runtimes
      (validate-IsSafeTenant process.platform cfg valid).0 secrets
      (build_tenant_runtimes-Serves process.platform process.host cfg runtimes valid built)
