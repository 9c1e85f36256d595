-- ===== src/Config/SafeTenants.antt =====
-- A tenant's configuration that is safe to serve, of internal/ports/config/config.go.
use authrim_wordwarden.Prelude.{
  [], ◌∷◌, contains, ℤ, pos, lt_int, ◌≡◌, ◌⊎◌, true, false, List, map, Text, lit, text_eq, is_nil,
  All, IsDistinct, IsPositive,
}
use authrim_wordwarden.GoText.Encoding.{contains_text}
use authrim_wordwarden.Secrets.{SecretRef, reference, parse_ref}
use authrim_wordwarden.Relay.Address.{validate_relay_url_binding}
use authrim_wordwarden.Config.{
  TenantConfig, LdapConfig, DirectoryProfileConfig, GroupConfig, TimeoutConfig, ProtectionConfig,
}
use authrim_wordwarden.Config.Patterns.{
  Platform, connector_id_matches, valid_ldap_attribute_description,
}
use authrim_wordwarden.Config.Endpoints.{ldap_endpoint_urls}
use authrim_wordwarden.Config.SafeEndpoints.{IsSecure}

abbrev pub IsReferenced : Text → Type 0
IsReferenced raw = (r : SecretRef) × (parse_ref raw ≡ reference r)

-- A number that is positive and at most another one.
abbrev pub IsWithin : ℤ → ℤ → Type 0
IsWithin most n = IsPositive n × (lt_int most n ≡ false)

abbrev pub IsDescription : Text → Type 0
IsDescription attribute = valid_ldap_attribute_description attribute ≡ true

-- Names from the lists that are permitted, attributes of the form that is safe in a filter, and
-- pages within their limits.
pub record IsKnownProfile (p : DirectoryProfileConfig) : Type 0 where
  pub named : contains p.name (lit "active_directory" ∷ lit "openldap" ∷ lit "generic" ∷ []) ≡ true
  pub identifiers : All IsDescription p.identifier_attributes
  pub subject : (p.subject_attribute ≡ []) ⊎ IsDescription p.subject_attribute
  pub strategy :
      contains p.group_strategy
        (lit "member_attribute_only" ∷ lit "ad_matching_rule" ∷ lit "bfs_member_search" ∷ [])
      ≡ true
  pub normalization :
      contains p.status_normalization (lit "generic" ∷ lit "active_directory" ∷ []) ≡ true
  pub paged :
      (p.paged_search.enabled ≡ false)
      ⊎ (IsWithin (pos 10000) p.paged_search.page_size
          × IsWithin (pos 100000) p.paged_search.max_entries
          × IsWithin (pos 60000) p.paged_search.timeout_ms)

-- Attributes of a safe form, and limits.
pub record IsBoundedGroups (g : GroupConfig) : Type 0 where
  pub member : IsDescription g.member_attribute
  pub searched : IsDescription g.search_member_attribute
  pub response : IsDescription g.response_attribute
  pub identifier : IsDescription g.id_attribute
  pub display : IsDescription g.display_attribute
  pub depth : IsWithin (pos 20) g.max_depth
  pub groups : IsWithin (pos 10000) g.max_groups
  pub timeout : IsWithin (pos 60000) g.timeout_ms

-- Verified TLS to every endpoint and referral, and a filter that holds the user's name.
pub record IsSafeLdap (platform : Platform) (l : LdapConfig) : Type 0 where
  pub verified : l.tls.verify ≡ true
  pub reachable : is_nil (ldap_endpoint_urls l) ≡ false
  pub endpoints : All (IsSecure platform.urls l.tls.start_tls) (ldap_endpoint_urls l)
  pub distinct : IsDistinct (ldap_endpoint_urls l)
  pub referrals : All (IsSecure platform.urls l.tls.start_tls) l.referrals.allowed_urls
  pub filtered :
      (l.lookup_mode ≡ lit "dn_template") ⊎ (contains_text l.user_filter (lit "{username}") ≡ true)
  pub selected : is_nil l.attributes ≡ false
  pub profile : IsKnownProfile l.directory_profile
  pub grouped : (l.groups.enabled ≡ false) ⊎ IsBoundedGroups l.groups
  pub pooled : lt_int l.pool.max_idle (pos 0) ≡ false
  pub formats :
      All
        (λ f. contains f (lit "local_part" ∷ lit "email" ∷ lit "upn" ∷ []) ≡ true)
        l.username.allowed_formats

pub record IsPositiveTimeouts (t : TimeoutConfig) : Type 0 where
  pub connect : IsPositive t.ldap_connect_ms
  pub search : IsPositive t.ldap_search_ms
  pub bind : IsPositive t.ldap_bind_ms
  pub request : IsPositive t.request_ms

pub record IsPositiveProtection (p : ProtectionConfig) : Type 0 where
  pub window : IsPositive p.storm_window_ms
  pub block : IsPositive p.storm_block_ms
  pub malformed : IsPositive p.malformed_request_limit
  pub replay : IsPositive p.replay_limit
  pub directory : IsPositive p.directory_error_limit
  pub requests : IsPositive p.max_concurrent_requests

pub record IsSafeTenant (platform : Platform) (t : TenantConfig) : Type 0 where
  pub tenant_named : is_nil t.tenant_id ≡ false
  pub connector_named : connector_id_matches t.connector_id ≡ true
  pub key_named : is_nil t.authrim.hmac_keys.active.kid ≡ false
  pub key : IsReferenced t.authrim.hmac_keys.active.secret_ref
  pub audit_secret : IsReferenced t.authrim.audit_hash_secret_ref
  pub relay :
      (t.authrim.relay.enabled ≡ false)
      ⊎ ((is_nil t.authrim.relay.url ≡ false)
          × (validate_relay_url_binding platform.urls t.authrim.relay.url t.tenant_id t.connector_id
              ≡ true))
  pub heartbeat :
      (t.authrim.heartbeat.enabled ≡ false) ⊎ IsReferenced t.authrim.heartbeat.key.secret_ref
  pub ldap : IsSafeLdap platform t.ldap
  pub timeouts : IsPositiveTimeouts t.timeouts
  pub protection : IsPositiveProtection t.protection

-- The identifiers of the tenants, in their order.
abbrev pub tenant_ids : List TenantConfig → List Text
tenant_ids = map (λ t. t.tenant_id)

abbrev pub connector_ids : List TenantConfig → List Text
connector_ids = map (λ t. t.connector_id)
