-- ===== src/Config/Validation.antt =====
-- The validation of internal/ports/config/config.go: the texts of all that is wrong with a
-- configuration. `Validate` gives an error, the texts joined by newlines, exactly if there is one.
use authrim_wordwarden.Prelude.{
  ℕ, suc, not, ◌&&◌, List, [], ◌∷◌, ◌++◌, Text, lit, text_eq, ◌==◌, is_nil, contains, if◌then◌else◌,
  pos, le_int, length, eqb,
}
use authrim_wordwarden.Config.{
  Config, TenantConfig, HmacKeysConfig, TimeoutConfig, ProtectionConfig, ServerTlsConfig,
}
use authrim_wordwarden.Config.Problems.{problems_of, concat, numbered}
use authrim_wordwarden.Config.Patterns.{Platform, connector_id_matches, validate_secret_ref}
use authrim_wordwarden.Config.Routes.{validate_relay, validate_heartbeat, previous_problems}
use authrim_wordwarden.Config.LdapRules.{validate_ldap}

unfoldable pub validate_protection : Text → ProtectionConfig → List Text
validate_protection prefix p = problems_of (
    (le_int p.storm_window_ms (pos 0), prefix ++ lit ".storm_window_ms must be positive")
    ∷ (le_int p.storm_block_ms (pos 0), prefix ++ lit ".storm_block_ms must be positive")
    ∷ (
      le_int p.malformed_request_limit (pos 0),
      prefix ++ lit ".malformed_request_limit must be positive",
    )
    ∷ (le_int p.replay_limit (pos 0), prefix ++ lit ".replay_limit must be positive")
    ∷ (
      le_int p.directory_error_limit (pos 0),
      prefix ++ lit ".directory_error_limit must be positive",
    )
    ∷ [])

unfoldable pub validate_timeouts : Text → TimeoutConfig → List Text
validate_timeouts prefix t = problems_of (
    (le_int t.ldap_connect_ms (pos 0), prefix ++ lit ".ldap_connect_ms must be positive")
    ∷ (le_int t.ldap_search_ms (pos 0), prefix ++ lit ".ldap_search_ms must be positive")
    ∷ (le_int t.ldap_bind_ms (pos 0), prefix ++ lit ".ldap_bind_ms must be positive")
    ∷ (le_int t.request_ms (pos 0), prefix ++ lit ".request_ms must be positive")
    ∷ [])

-- The checks of the identifiers against those of the tenants before.
unfoldable pub identity_problems : Text → List Text → List Text → TenantConfig → List Text
identity_problems prefix seen_tenants seen_connectors t = problems_of (
    (is_nil t.tenant_id, prefix ++ lit ".tenant_id is required")
    ∷ (is_nil t.connector_id, prefix ++ lit ".connector_id is required")
    ∷ (
      not (is_nil t.connector_id) && not (connector_id_matches t.connector_id),
      prefix ++ lit ".connector_id must be wwcon_ followed by 16 alphanumeric characters",
    )
    ∷ (
      not (is_nil t.tenant_id) && contains t.tenant_id seen_tenants,
      prefix ++ lit ".tenant_id must be unique",
    )
    ∷ (
      not (is_nil t.connector_id) && contains t.connector_id seen_connectors,
      prefix ++ lit ".connector_id must be unique",
    )
    ∷ [])

unfoldable pub deployment_problems : Text → List TenantConfig → List Text
deployment_problems mode tenants =
    if mode == lit "single_tenant"
    then problems_of (
        (
          not (eqb (length tenants) 1),
          lit "deployment.mode single_tenant requires exactly one tenant",
        )
        ∷ [])
    else if mode == lit "multi_tenant"
    then problems_of
        ((is_nil tenants, lit "deployment.mode multi_tenant requires at least one tenant") ∷ [])
    else lit "deployment.mode must be single_tenant or multi_tenant" ∷ []

unfoldable pub server_tls_problems : ServerTlsConfig → List Text
server_tls_problems tls = problems_of (
    (
      tls.enabled && is_nil tls.cert_file_ref,
      lit "server.tls.cert_file_ref is required when TLS is enabled",
    )
    ∷ (
      tls.enabled && is_nil tls.key_file_ref,
      lit "server.tls.key_file_ref is required when TLS is enabled",
    )
    ∷ [])

module _ (platform : Platform) where
  unfoldable pub keys_problems : Text → HmacKeysConfig → List Text
  keys_problems prefix keys = concat (
      validate_secret_ref platform (prefix ++ lit ".active.secret_ref") keys.active.secret_ref
      ∷ problems_of ((is_nil keys.active.kid, prefix ++ lit ".active.kid is required") ∷ [])
      ∷ previous_problems platform (prefix ++ lit ".previous") keys.previous
      ∷ [])

  -- The body of the loop over the tenants.
  unfoldable pub tenant_problems : Text → List Text → List Text → TenantConfig → List Text
  tenant_problems prefix seen_tenants seen_connectors t = concat (
      identity_problems prefix seen_tenants seen_connectors t
      ∷ keys_problems (prefix ++ lit ".authrim.hmac_keys") t.authrim.hmac_keys
      ∷ validate_secret_ref platform (prefix ++ lit ".authrim.audit_hash_secret_ref")
          t.authrim.audit_hash_secret_ref
      ∷ validate_relay platform.urls (prefix ++ lit ".authrim.relay") t.authrim.relay t.tenant_id
          t.connector_id
      ∷ validate_heartbeat platform (prefix ++ lit ".authrim.heartbeat") t.authrim.heartbeat
          t.tenant_id t.connector_id
      ∷ validate_ldap platform (prefix ++ lit ".ldap") t.ldap
      ∷ validate_timeouts (prefix ++ lit ".timeouts") t.timeouts
      ∷ problems_of (
          (
            le_int t.protection.max_concurrent_requests (pos 0),
            prefix ++ lit ".protection.max_concurrent_requests must be positive",
          )
          ∷ [])
      ∷ validate_protection (prefix ++ lit ".protection") t.protection
      ∷ [])

  -- The loop from index `i`.
  unfoldable pub tenants_problems : ℕ → List Text → List Text → List TenantConfig → List Text
  tenants_problems i seen_tenants seen_connectors [] = []
  tenants_problems i seen_tenants seen_connectors (t ∷ rest) =
      tenant_problems (numbered (lit "tenants") i) seen_tenants seen_connectors t
      ++ tenants_problems (suc i) (t.tenant_id ∷ seen_tenants) (t.connector_id ∷ seen_connectors)
          rest

  unfoldable pub validate : Config → List Text
  validate cfg = concat (
      deployment_problems cfg.deployment.mode cfg.tenants
      ∷ server_tls_problems cfg.server.tls
      ∷ tenants_problems 0 [] [] cfg.tenants
      ∷ [])
