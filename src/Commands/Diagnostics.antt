-- ===== src/Commands/Diagnostics.antt =====
-- The bundle of the command `diagnostics bundle` of internal/app/command.go.
use authrim_wordwarden.Prelude.{
  ℕ, ◌+◌, Bool, true, false, List, [], map, Option, none, some, Text, lit, is_nil, if◌then◌else◌,
  length, ℤ,
}
use authrim_wordwarden.GoUrl.{UrlParser}
use authrim_wordwarden.Config.{
  Config, TenantConfig, RelayConfig, LdapConfig, TimeoutConfig, ProtectionConfig, HmacKeyConfig,
}

pub record DiagnosticServerSummary : Type 0 where
  pub listen : Text
  pub public_base_url : Text
  pub tls_enabled : Bool

pub record DiagnosticRelaySummary : Type 0 where
  pub enabled : Bool
  pub url_host : Text
  pub url_path : Text
  pub reconnect_min_ms : ℤ
  pub reconnect_max_ms : ℤ

pub record DiagnosticLdapSummary : Type 0 where
  pub url_count : ℕ
  pub lookup_mode : Text
  pub start_tls : Bool
  pub tls_verify : Bool
  pub attributes : List Text
  pub groups_enabled : Bool
  pub referrals_mode : Text

-- The timeouts and the limits have the fields of the configuration's records.
pub record DiagnosticTenantSummary : Type 0 where
  pub tenant_id : Text
  pub connector_id : Text
  pub hmac_active_kid : Text
  pub has_previous_hmac_key : Bool
  pub relay : DiagnosticRelaySummary
  pub ldap : DiagnosticLdapSummary
  pub timeouts : TimeoutConfig
  pub protection : ProtectionConfig

pub record DiagnosticBundle : Type 0 where
  pub connector : Text
  pub version : Text
  pub server : DiagnosticServerSummary
  pub tenants : List DiagnosticTenantSummary

abbrev pub is_configured : Option HmacKeyConfig → Bool
is_configured none = false
is_configured (some key) = true

unfoldable pub url_count : LdapConfig → ℕ
url_count l = if is_nil l.url then length l.urls else length l.urls + 1

unfoldable pub ldap_summary : LdapConfig → DiagnosticLdapSummary
ldap_summary l = record {
  url_count = url_count l;
  lookup_mode = l.lookup_mode;
  start_tls = l.tls.start_tls;
  tls_verify = l.tls.verify;
  attributes = l.attributes;
  groups_enabled = l.groups.enabled;
  referrals_mode = l.referrals.mode;
}

module _ (urls : UrlParser) where
  -- The host and the path.
  unfoldable pub relay_url_summary : Text → Text × Text
  relay_url_summary raw =
      if is_nil raw
      then ([], [])
      else elim (urls.parse raw) [ none ↦ ([], []) | some url ↦ (url.host, url.escaped_path) ]

  unfoldable pub relay_summary : RelayConfig → DiagnosticRelaySummary
  relay_summary r = record {
    enabled = r.enabled;
    url_host = (relay_url_summary r.url).0;
    url_path = (relay_url_summary r.url).1;
    reconnect_min_ms = r.reconnect_min_ms;
    reconnect_max_ms = r.reconnect_max_ms;
  }

  -- The body of the loop over the tenants.
  unfoldable pub tenant_summary : TenantConfig → DiagnosticTenantSummary
  tenant_summary t = record {
    tenant_id = t.tenant_id;
    connector_id = t.connector_id;
    hmac_active_kid = t.authrim.hmac_keys.active.kid;
    has_previous_hmac_key = is_configured t.authrim.hmac_keys.previous;
    relay = relay_summary t.authrim.relay;
    ldap = ldap_summary t.ldap;
    timeouts = t.timeouts;
    protection = t.protection;
  }

  unfoldable pub build_diagnostic_bundle : Text → Config → DiagnosticBundle
  build_diagnostic_bundle version cfg = record {
    connector = lit "authrim-wordwarden";
    version = version;
    server = record {
      listen = cfg.server.listen;
      public_base_url = cfg.server.public_base_url;
      tls_enabled = cfg.server.tls.enabled;
    };
    tenants = map tenant_summary cfg.tenants;
  }
