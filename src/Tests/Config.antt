-- ===== src/Tests/Config.antt =====
-- The theorem on the defaults of a configuration, at a tenant whose fields are empty.
use authrim_wordwarden.Prelude.{false, [], ◌∷◌, none, lit, pos}
use authrim_wordwarden.Config.{Config, TenantConfig, HmacKeyConfig}
use authrim_wordwarden.Config.Defaults.{apply_defaults}
use authrim_wordwarden.Config.Filled.{IsFilled}
use authrim_wordwarden.Config.Filling.{apply_defaults-IsFilled}

abbrev no_key : HmacKeyConfig
no_key = record { kid = []; secret_ref = [] }

abbrev tenant : TenantConfig
tenant = record {
  tenant_id = lit "t";
  connector_id = lit "c";
  authrim = record {
    hmac_keys = record { active = no_key; previous = none };
    audit_hash_secret_ref = [];
    relay = record {
      enabled = false;
      url = [];
      reconnect_min_ms = pos 0;
      reconnect_max_ms = pos 0;
    };
    heartbeat = record {
      enabled = false;
      url = [];
      transport = [];
      display_name = [];
      key = no_key;
      previous = none;
      interval_ms = pos 0;
      timeout_ms = pos 0;
    };
  };
  ldap = record {
    url = lit "ldaps://dc";
    urls = [];
    tls = record { verify = false; server_name = []; ca_file_ref = []; start_tls = false };
    directory_profile = record {
      name = lit "active_directory";
      subject_attribute = [];
      identifier_attributes = [];
      group_strategy = [];
      status_normalization = [];
      paged_search = record {
        enabled = false;
        page_size = pos 0;
        max_entries = pos 0;
        timeout_ms = pos 0;
      };
    };
    lookup_mode = [];
    username = record {
      allowed_formats = [];
      allowed_domains = [];
      allowed_upn_suffixes = [];
      normalization = record {
        trim = false;
        unicode_form = [];
        letter_case = [];
        reject_domain_mismatch = false;
      };
    };
    bind_dn = [];
    bind_password_ref = [];
    base_dn = [];
    dn_template = [];
    user_filter = [];
    filter_template_mode = [];
    attributes = [];
    referrals = record { mode = []; allowed_urls = []; allow_service_bind_reuse = false };
    groups = record {
      enabled = false;
      member_attribute = [];
      search_member_attribute = [];
      response_attribute = [];
      id_attribute = [];
      display_attribute = [];
      search_base_dn = [];
      max_depth = pos 0;
      max_groups = pos 0;
      timeout_ms = pos 0;
    };
    pool = record { max_idle = pos 0 };
  };
  timeouts = record {
    ldap_connect_ms = pos 0;
    ldap_bind_ms = pos 0;
    ldap_search_ms = pos 0;
    request_ms = pos 0;
  };
  protection = record {
    max_concurrent_requests = pos 0;
    storm_window_ms = pos 0;
    storm_block_ms = pos 0;
    malformed_request_limit = pos 0;
    replay_limit = pos 0;
    directory_error_limit = pos 0;
  };
}

abbrev config : Config
config = record {
  deployment = record { mode = [] };
  server = record {
    listen = [];
    public_base_url = [];
    expose_operations = false;
    state_dir = [];
    tls = record { enabled = false; cert_file_ref = []; key_file_ref = [] };
  };
  tenants = tenant ∷ [];
}

apply_defaults-IsFilled_example : IsFilled config (apply_defaults config)
apply_defaults-IsFilled_example = apply_defaults-IsFilled config
