-- ===== src/Heartbeat/Fingerprint.antt =====
-- What the fingerprint of a configuration depends on, of internal/app/heartbeat.go.
use mathlib.Core.List.{Perm}
use authrim_wordwarden.Prelude.{◌≡◌, refl, length}
use authrim_wordwarden.GoText.Reordering.{sort_texts-perm}
use authrim_wordwarden.Hmac.Canonical.{Crypto}
use authrim_wordwarden.Config.{TenantConfig}
use authrim_wordwarden.Heartbeat.{
  Codec, ldap_urls, schemes_of, fingerprint_input, config_fingerprint,
}

-- Two tenants with the same settings, of which the lists may stand in another order. No secret, no
-- reference to one, no key, no name of the service's account and no URL is among them but by the
-- endpoints' schemes and their number.
pub record IsReordered (t u : TenantConfig) : Type 0 where
  pub tenant_id : t.tenant_id ≡ u.tenant_id
  pub connector_id : t.connector_id ≡ u.connector_id
  pub endpoints : length (ldap_urls t.ldap) ≡ length (ldap_urls u.ldap)
  pub schemes : Perm (schemes_of (ldap_urls t.ldap)) (schemes_of (ldap_urls u.ldap))
  pub verify : t.ldap.tls.verify ≡ u.ldap.tls.verify
  pub start_tls : t.ldap.tls.start_tls ≡ u.ldap.tls.start_tls
  pub lookup_mode : t.ldap.lookup_mode ≡ u.ldap.lookup_mode
  pub profile_name : t.ldap.directory_profile.name ≡ u.ldap.directory_profile.name
  pub subject :
      t.ldap.directory_profile.subject_attribute ≡ u.ldap.directory_profile.subject_attribute
  pub identifiers :
      Perm t.ldap.directory_profile.identifier_attributes
        u.ldap.directory_profile.identifier_attributes
  pub strategy : t.ldap.directory_profile.group_strategy ≡ u.ldap.directory_profile.group_strategy
  pub normalization :
      t.ldap.directory_profile.status_normalization ≡ u.ldap.directory_profile.status_normalization
  pub paged :
      t.ldap.directory_profile.paged_search.enabled ≡ u.ldap.directory_profile.paged_search.enabled
  pub page_size :
      t.ldap.directory_profile.paged_search.page_size
      ≡ u.ldap.directory_profile.paged_search.page_size
  pub attributes : Perm t.ldap.attributes u.ldap.attributes
  pub formats : Perm t.ldap.username.allowed_formats u.ldap.username.allowed_formats
  pub domains : Perm t.ldap.username.allowed_domains u.ldap.username.allowed_domains
  pub suffixes : Perm t.ldap.username.allowed_upn_suffixes u.ldap.username.allowed_upn_suffixes
  pub groups : t.ldap.groups.enabled ≡ u.ldap.groups.enabled
  pub referrals : t.ldap.referrals.mode ≡ u.ldap.referrals.mode
  pub timeouts : t.timeouts ≡ u.timeouts
  pub protection : t.protection ≡ u.protection
  pub relay : t.authrim.relay.enabled ≡ u.authrim.relay.enabled
  pub transport : t.authrim.heartbeat.transport ≡ u.authrim.heartbeat.transport
  pub interval : t.authrim.heartbeat.interval_ms ≡ u.authrim.heartbeat.interval_ms
  pub timeout : t.authrim.heartbeat.timeout_ms ≡ u.authrim.heartbeat.timeout_ms

inputs_equal : (t u : TenantConfig) → IsReordered t u → fingerprint_input t ≡ fingerprint_input u
unfolding fingerprint_input
inputs_equal t u r = cc (
  sort_texts-perm _ _ r.schemes,
  sort_texts-perm _ _ r.identifiers,
  sort_texts-perm _ _ r.attributes,
  sort_texts-perm _ _ r.formats,
  sort_texts-perm _ _ r.domains,
  sort_texts-perm _ _ r.suffixes,
)

-- Two tenants with the same settings, whose lists of attributes, identifiers, formats, domains and
-- suffixes and whose endpoints' schemes may stand in another order and whose secrets, keys, accounts
-- and endpoints' hosts may differ, have one fingerprint.
pub config_fingerprint-IsReordered :
    (codec : Codec) (crypto : Crypto) (t u : TenantConfig)
    → IsReordered t u
    → config_fingerprint codec crypto t ≡ config_fingerprint codec crypto u
unfolding config_fingerprint
config_fingerprint-IsReordered codec crypto t u r = rw (inputs_equal t u r) refl
