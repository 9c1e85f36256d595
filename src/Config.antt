-- ===== src/Config.antt =====
-- The records of internal/ports/config/config.go. The maps of `experimental` are not read.
pub mod Defaults
pub mod Filled
pub mod Filling
pub mod Problems
pub mod Patterns
pub mod Routes
pub mod Endpoints
pub mod LdapRules
pub mod SafeEndpoints
pub mod RelayRoutes
pub mod SafeTenants
pub mod SafeDirectories
pub mod SafeLdap
pub mod Accepted
pub mod Loading
pub mod Validation
use authrim_wordwarden.Prelude.{Bool, List, Option, Text, ℤ}
use authrim_wordwarden.Username.{UsernameConfig}

pub record DeploymentConfig : Type 0 where
  pub mode : Text

pub record ServerTlsConfig : Type 0 where
  pub enabled : Bool
  pub cert_file_ref : Text
  pub key_file_ref : Text

pub record ServerConfig : Type 0 where
  pub listen : Text
  pub public_base_url : Text
  pub expose_operations : Bool
  pub state_dir : Text
  pub tls : ServerTlsConfig

pub record HmacKeyConfig : Type 0 where
  pub kid : Text
  pub secret_ref : Text

pub record HmacKeysConfig : Type 0 where
  pub active : HmacKeyConfig
  pub previous : Option HmacKeyConfig

pub record RelayConfig : Type 0 where
  pub enabled : Bool
  pub url : Text
  pub reconnect_min_ms : ℤ
  pub reconnect_max_ms : ℤ

pub record HeartbeatConfig : Type 0 where
  pub enabled : Bool
  pub url : Text
  pub transport : Text
  pub display_name : Text
  pub key : HmacKeyConfig
  pub previous : Option HmacKeyConfig
  pub interval_ms : ℤ
  pub timeout_ms : ℤ

pub record AuthrimConfig : Type 0 where
  pub hmac_keys : HmacKeysConfig
  pub audit_hash_secret_ref : Text
  pub relay : RelayConfig
  pub heartbeat : HeartbeatConfig

pub record PagedSearchConfig : Type 0 where
  pub enabled : Bool
  pub page_size : ℤ
  pub max_entries : ℤ
  pub timeout_ms : ℤ

pub record DirectoryProfileConfig : Type 0 where
  pub name : Text
  pub subject_attribute : Text
  pub identifier_attributes : List Text
  pub group_strategy : Text
  pub status_normalization : Text
  pub paged_search : PagedSearchConfig

pub record LdapTlsConfig : Type 0 where
  pub verify : Bool
  pub server_name : Text
  pub ca_file_ref : Text
  pub start_tls : Bool

pub record ReferralConfig : Type 0 where
  pub mode : Text
  pub allowed_urls : List Text
  pub allow_service_bind_reuse : Bool

pub record GroupConfig : Type 0 where
  pub enabled : Bool
  pub member_attribute : Text
  pub search_member_attribute : Text
  pub response_attribute : Text
  pub id_attribute : Text
  pub display_attribute : Text
  pub search_base_dn : Text
  pub max_depth : ℤ
  pub max_groups : ℤ
  pub timeout_ms : ℤ

pub record PoolConfig : Type 0 where
  pub max_idle : ℤ

pub record LdapConfig : Type 0 where
  pub url : Text
  pub urls : List Text
  pub tls : LdapTlsConfig
  pub directory_profile : DirectoryProfileConfig
  pub lookup_mode : Text
  pub username : UsernameConfig
  pub bind_dn : Text
  pub bind_password_ref : Text
  pub base_dn : Text
  pub dn_template : Text
  pub user_filter : Text
  pub filter_template_mode : Text
  pub attributes : List Text
  pub referrals : ReferralConfig
  pub groups : GroupConfig
  pub pool : PoolConfig

pub record TimeoutConfig : Type 0 where
  pub ldap_connect_ms : ℤ
  pub ldap_bind_ms : ℤ
  pub ldap_search_ms : ℤ
  pub request_ms : ℤ

pub record ProtectionConfig : Type 0 where
  pub max_concurrent_requests : ℤ
  pub storm_window_ms : ℤ
  pub storm_block_ms : ℤ
  pub malformed_request_limit : ℤ
  pub replay_limit : ℤ
  pub directory_error_limit : ℤ

pub record TenantConfig : Type 0 where
  pub tenant_id : Text
  pub connector_id : Text
  pub authrim : AuthrimConfig
  pub ldap : LdapConfig
  pub timeouts : TimeoutConfig
  pub protection : ProtectionConfig

pub record Config : Type 0 where
  pub deployment : DeploymentConfig
  pub server : ServerConfig
  pub tenants : List TenantConfig
