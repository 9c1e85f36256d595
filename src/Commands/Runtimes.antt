-- ===== src/Commands/Runtimes.antt =====
-- The runtimes that internal/app/command.go builds, each of its own tenant.
use authrim_wordwarden.Prelude.{
  ◌≡◌, refl, ◌∙◌, false, List, [], ◌∷◌, some, Text, text_iff, text_eq, insert, lookup,
  lookup-insert, contains, IsDistinct, Option, none, All, arith, Option-cases, inl, inr,
}
use authrim_wordwarden.Config.{Config, TenantConfig, HmacKeyConfig}
use authrim_wordwarden.Config.Patterns.{Platform}
use authrim_wordwarden.Config.SafeTenants.{connector_ids}
use authrim_wordwarden.Config.Validation.{validate}
use authrim_wordwarden.Config.Accepted.{validate-IsSafeTenant}
use authrim_wordwarden.Secrets.Resolving.{Host, resolve_secret_bytes, resolve_optional_secret_bytes}
use authrim_wordwarden.Hmac.Verifier.{Key}
use authrim_wordwarden.Commands.{
  Runtime, storm_policy, previous_key, tenant_runtime, build_runtimes, build_tenant_runtimes,
}

-- Is a previous key the one configured, with the secret behind its reference? There is none where
-- none is configured.
abbrev pub IsOwnPrevious : Host → Option HmacKeyConfig → Option Key → Type 0
IsOwnPrevious host none none = Unit
IsOwnPrevious host (some configured) (some key) =
    (key.kid ≡ configured.kid) × (resolve_secret_bytes host configured.secret_ref ≡ some key.secret)
IsOwnPrevious host none (some key) = ⊥
IsOwnPrevious host (some configured) none = ⊥

-- Is a bind password what is behind its reference, and empty where there is no reference?
abbrev pub IsOwnPassword : Host → Text → Text → Type 0
IsOwnPassword host [] password = password ≡ []
IsOwnPassword host (c ∷ reference) password =
    resolve_secret_bytes host (c ∷ reference) ≡ some password

-- Is a runtime that of the tenant, with the secrets that its references lead to?
pub record IsOwn (host : Host) (t : TenantConfig) (r : Runtime) : Type 0 where
  pub tenant : r.0.tenant_id ≡ t.tenant_id
  pub connector : r.0.connector_id ≡ t.connector_id
  pub key_id : r.0.keys.active.kid ≡ t.authrim.hmac_keys.active.kid
  pub key :
      resolve_secret_bytes host t.authrim.hmac_keys.active.secret_ref ≡ some r.0.keys.active.secret
  pub previous : IsOwnPrevious host t.authrim.hmac_keys.previous r.0.keys.previous
  pub audit_secret :
      resolve_secret_bytes host t.authrim.audit_hash_secret_ref ≡ some r.0.audit_hash_secret
  pub bind_password : IsOwnPassword host t.ldap.bind_password_ref r.1.bind_password
  pub limit : r.0.concurrency_limit ≡ t.protection.max_concurrent_requests
  pub request_timeout : r.0.request_timeout_ms ≡ t.timeouts.request_ms
  pub storms : r.0.storm_protection ≡ storm_policy t.protection
  pub directory : r.1.config ≡ t.ldap
  pub timeouts : r.1.timeouts ≡ t.timeouts

-- Does the map lead from the tenant's connector to its own runtime?
abbrev pub Serves : Host → List (Text × Runtime) → TenantConfig → Type 0
Serves host runtimes t = (r : Runtime) × (lookup t.connector_id runtimes ≡ some r) × IsOwn host t r

module _ (host : Host) where
  previous_key-IsOwn :
      (configured : Option HmacKeyConfig) (key : Option Key)
      → previous_key host configured ≡ some key
      → IsOwnPrevious host configured key
  unfolding previous_key
  previous_key-IsOwn none none h = tt
  previous_key-IsOwn none (some key) h = absurd (cc h)
  previous_key-IsOwn (some configured) key h =
      elim (Option-cases (resolve_secret_bytes host configured.secret_ref)) [
        | inl no_secret ↦ absurd (cc (rw (no_secret, previous_key) at h))
        | inr (secret, found) ↦
            let made : key ≡ some (record { kid = configured.kid; secret = secret }) =
              cc (rw (found, previous_key) at h) in
            rw made (refl, found)
      ]

  resolve_optional-IsOwn :
      (raw password : Text)
      → resolve_optional_secret_bytes host raw ≡ some password
      → IsOwnPassword host raw password
  unfolding resolve_optional_secret_bytes
  resolve_optional-IsOwn [] password h = cc h
  resolve_optional-IsOwn (c ∷ raw) password h = h

  tenant_runtime-IsOwn :
      (t : TenantConfig) (r : Runtime) → tenant_runtime host t ≡ some r → IsOwn host t r
  unfolding tenant_runtime
  tenant_runtime-IsOwn t r h =
      elim (Option-cases (resolve_secret_bytes host t.authrim.hmac_keys.active.secret_ref)) [
        | inl no_key ↦ absurd (cc (rw (no_key, tenant_runtime) at h))
        | inr (active, key) ↦ elim (Option-cases (previous_key host t.authrim.hmac_keys.previous)) [
          | inl no_previous ↦ absurd (cc (rw (key, no_previous, tenant_runtime) at h))
          | inr (previous, before) ↦ ground (
            arith,
            key,
            before,
            previous_key-IsOwn t.authrim.hmac_keys.previous previous before,
            resolve_optional-IsOwn t.ldap.bind_password_ref r.1.bind_password,
          )
        ]
      ]

  -- A key that no later tenant has keeps its entry.
  build_runtimes_keep :
      (k : Text) (tenants : List TenantConfig) (start end : List (Text × Runtime))
      → contains k (connector_ids tenants) ≡ false
      → build_runtimes host tenants start ≡ some end
      → lookup k end ≡ lookup k start
  unfolding build_runtimes contains
  build_runtimes_keep k [] start end fresh h = cc
  build_runtimes_keep k (t ∷ tenants) start end fresh h =
      elim (Option-cases (tenant_runtime host t)) [
        | inl failed ↦ absurd (cc (rw (failed, build_runtimes) at h))
        | inr (r, built) ↦
            build_runtimes_keep k tenants (insert t.connector_id r start) end (ground arith)
              (rw (built, build_runtimes) at h)
            ∙ ground (arith, fresh, lookup-insert t.connector_id k r start)
      ]

  build_runtimes-Serves :
      (tenants : List TenantConfig) (start end : List (Text × Runtime))
      → IsDistinct (connector_ids tenants)
      → build_runtimes host tenants start ≡ some end
      → All (Serves host end) tenants
  unfolding build_runtimes
  build_runtimes-Serves [] start end d h = tt
  build_runtimes-Serves (t ∷ tenants) start end (d, ds) h =
      elim (Option-cases (tenant_runtime host t)) [
        | inl failed ↦ absurd (cc (rw (failed, build_runtimes) at h))
        | inr (r, built) ↦
            let later = rw (built, build_runtimes) at h in
            (
              (
                r,
                build_runtimes_keep t.connector_id tenants _ end d later
                    ∙ ground (
                      arith,
                      lookup-insert t.connector_id t.connector_id r start,
                      (text_iff t.connector_id t.connector_id).1 refl,
                    ),
                tenant_runtime-IsOwn t r built,
              ),
              build_runtimes-Serves tenants (insert t.connector_id r start) end ds later,
            )
      ]

-- Where validation accepts the configuration and the runtimes are built, each tenant's connector
-- leads to a runtime of that tenant: its identifiers, its active key with the secret behind its
-- reference, its previous key likewise where one is configured and none otherwise, the secrets of its
-- audit and of its directory's account behind their references, its limits, times and directory.
pub build_tenant_runtimes-Serves :
    (platform : Platform) (host : Host) (cfg : Config) (runtimes : List (Text × Runtime))
    → validate platform cfg ≡ []
    → build_tenant_runtimes host cfg ≡ some runtimes
    → All (Serves host runtimes) cfg.tenants
unfolding build_tenant_runtimes
build_tenant_runtimes-Serves platform host cfg runtimes valid h =
    let (_, _, connectors) = validate-IsSafeTenant platform cfg valid in
    build_runtimes-Serves host cfg.tenants [] runtimes connectors h
