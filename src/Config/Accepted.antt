-- ===== src/Config/Accepted.antt =====
-- What validation by internal/ports/config/config.go promises.
use authrim_wordwarden.Prelude.{
  ℕ, suc, ◌≡◌, ◌⊎◌, refl, inl, inr, false, List, [], ◌∷◌, Text, text_eq, is_nil, arith, Bool-cases,
  All, IsFresh, IsDistinct, IsFresh-IsDistinct, contains,
}
use authrim_wordwarden.Config.{Config, TenantConfig, TimeoutConfig, HmacKeysConfig, HeartbeatConfig}
use authrim_wordwarden.Config.Problems.{problems_of, problems_of_nil, concat_nil, append_nil_parts}
use authrim_wordwarden.Config.Patterns.{Platform}
use authrim_wordwarden.Config.SafeLdap.{validate_secret_ref-IsReferenced, validate_ldap-IsSafeLdap}
use authrim_wordwarden.Config.Routes.{validate_heartbeat, enabled_heartbeat_problems}
use authrim_wordwarden.Config.SafeTenants.{
  IsReferenced, IsPositiveTimeouts, IsSafeTenant, tenant_ids, connector_ids,
}
use authrim_wordwarden.Config.RelayRoutes.{validate_relay-binding}
use authrim_wordwarden.Config.Validation.{
  deployment_problems, validate_protection, validate_timeouts, identity_problems, keys_problems,
  tenant_problems, tenants_problems, validate,
}

timeouts_positive :
    (prefix : Text) (t : TimeoutConfig) → validate_timeouts prefix t ≡ [] → IsPositiveTimeouts t
unfolding validate_timeouts
timeouts_positive prefix t h =
    let (connect, (search_ms, (bind, (request, _)))) = (problems_of_nil _).0 h in
    record { connect = connect; search = search_ms; bind = bind; request = request }

module _ (platform : Platform) where
  validate_heartbeat-IsReferenced :
      (prefix : Text) (heartbeat : HeartbeatConfig) (tenant_id connector_id : Text)
      → validate_heartbeat platform prefix heartbeat tenant_id connector_id ≡ []
      → (heartbeat.enabled ≡ false) ⊎ IsReferenced heartbeat.key.secret_ref
  unfolding validate_heartbeat enabled_heartbeat_problems
  validate_heartbeat-IsReferenced prefix heartbeat tenant_id connector_id h =
      elim (Bool-cases heartbeat.enabled) [
        | inr off ↦ inl off
        | inl on ↦
            let (_, (rest, _)) = (concat_nil _).0 h in
            let (_, (_, (referenced, _))) = (concat_nil _).0 (rw on at rest) in
            inr (validate_secret_ref-IsReferenced platform _ _ referenced)
      ]

  keys_problems-IsReferenced :
      (prefix : Text) (keys : HmacKeysConfig)
      → keys_problems platform prefix keys ≡ []
      → (is_nil keys.active.kid ≡ false) × IsReferenced keys.active.secret_ref
  unfolding keys_problems
  keys_problems-IsReferenced prefix keys h =
      let (referenced, (named, _)) = (concat_nil _).0 h in
      (((problems_of_nil _).0 named).0, validate_secret_ref-IsReferenced platform _ _ referenced)

  tenant_problems-IsSafeTenant :
      (prefix : Text) (tenants connectors : List Text) (t : TenantConfig)
      → tenant_problems platform prefix tenants connectors t ≡ []
      → IsSafeTenant platform t
        × (contains t.tenant_id tenants ≡ false)
        × (contains t.connector_id connectors ≡ false)
  unfolding tenant_problems identity_problems validate_protection
  tenant_problems-IsSafeTenant prefix tenants connectors t h =
      let (
        identity,
        (keys, (audited, (relay, (beats, (ldap, (timed, (requests, (protected, _)))))))),
      ) =
        (concat_nil _).0 h in
      let (named, (connected, (matched, (new_tenant, (new_connector, _))))) =
        (problems_of_nil _).0 identity in
      let (window, (block, (malformed, (replay, (directory, _))))) =
        (problems_of_nil _).0 protected in
      let (key_named, key) = keys_problems-IsReferenced _ t.authrim.hmac_keys keys in
      let safe : IsSafeTenant platform t = record {
        tenant_named = named;
        connector_named = ground (arith, connected, matched);
        key_named = key_named;
        key = key;
        audit_secret = validate_secret_ref-IsReferenced platform _ _ audited;
        relay = validate_relay-binding platform.urls t.tenant_id t.connector_id _ _ relay;
        heartbeat = validate_heartbeat-IsReferenced _ t.authrim.heartbeat _ _ beats;
        ldap = validate_ldap-IsSafeLdap platform _ t.ldap ldap;
        timeouts = timeouts_positive _ t.timeouts timed;
        protection = record {
          window = window;
          block = block;
          malformed = malformed;
          replay = replay;
          directory = directory;
          requests = ((problems_of_nil _).0 requests).0;
        };
      } in
      (safe, ground (arith, named, new_tenant), ground (arith, connected, new_connector))

  tenants_problems-IsSafeTenant :
      (i : ℕ) (seen_tenants seen_connectors : List Text) (tenants : List TenantConfig)
      → tenants_problems platform i seen_tenants seen_connectors tenants ≡ []
      → All (IsSafeTenant platform) tenants
        × IsFresh seen_tenants (tenant_ids tenants)
        × IsFresh seen_connectors (connector_ids tenants)
  unfolding tenants_problems
  tenants_problems-IsSafeTenant i seen_tenants seen_connectors [] h = (tt, tt, tt)
  tenants_problems-IsSafeTenant i seen_tenants seen_connectors (t ∷ rest) h =
      let (one, others) = append_nil_parts _ _ h in
      let (safe, new_tenant, new_connector) = tenant_problems-IsSafeTenant _ _ _ t one in
      let (all_safe, tenants, connectors) = tenants_problems-IsSafeTenant (suc i) _ _ rest others in
      ((safe, all_safe), (new_tenant, tenants), (new_connector, connectors))

  -- In a configuration that validation accepts no two tenants share an identifier or a connector,
  -- and each has names, keys and secrets that are referred to by references of a known form, TLS
  -- that is verified with every endpoint and every permitted referral reached through it (ldaps, or
  -- ldap where StartTLS is on), endpoints that are distinct and at least one, a filter that holds
  -- the place of the user name unless names are built from a template, an attribute, a profile of
  -- known names with pages within their limits, groups that are off or have attributes of a safe
  -- form and limits within their ranges, a pool of no negative size, formats of user names that are
  -- known, a relay that is off or whose URL the relay client takes for this tenant's, a heartbeat
  -- that is off or whose key's secret is referred to likewise, and positive timeouts and limits.
  pub validate-IsSafeTenant :
      (cfg : Config)
      → validate platform cfg ≡ []
      → All (IsSafeTenant platform) cfg.tenants
        × IsDistinct (tenant_ids cfg.tenants)
        × IsDistinct (connector_ids cfg.tenants)
  unfolding validate
  validate-IsSafeTenant cfg h =
      let (_, (_, (tenants, _))) = (concat_nil _).0 h in
      let (safe, ids, connectors) = tenants_problems-IsSafeTenant 0 [] [] cfg.tenants tenants in
      (safe, (IsFresh-IsDistinct [] _ ids).0, (IsFresh-IsDistinct [] _ connectors).0)

deployment_filled :
    (mode : Text) (tenants : List TenantConfig)
    → deployment_problems mode tenants ≡ []
    → is_nil tenants ≡ false
unfolding deployment_problems problems_of
deployment_filled mode (t ∷ tenants) h = refl
deployment_filled mode [] h = ground arith

-- There is a tenant in a configuration that validation accepts.
pub validate_filled :
    (platform : Platform) (cfg : Config) → validate platform cfg ≡ [] → is_nil cfg.tenants ≡ false
unfolding validate
validate_filled platform cfg h =
    deployment_filled cfg.deployment.mode cfg.tenants ((concat_nil _).0 h).0
