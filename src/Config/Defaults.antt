-- ===== src/Config/Defaults.antt =====
-- The defaults of internal/ports/config/config.go.
use authrim_wordwarden.Prelude.{
  List, [], ◌∷◌, Text, lit, text_eq, ◌==◌, if◌then◌else◌, ℤ, pos, negsuc, zero, suc,
}
use authrim_wordwarden.Config.{
  Config, TenantConfig, LdapConfig, DirectoryProfileConfig, PagedSearchConfig, GroupConfig,
  TimeoutConfig, ProtectionConfig, AuthrimConfig,
}

-- A text that is empty, a list that is empty or a number that is zero gets its default.
unfoldable pub or_text : Text → Text → Text
or_text [] fallback = fallback
or_text (c ∷ s) fallback = c ∷ s

unfoldable pub or_texts : List Text → List Text → List Text
or_texts [] fallback = fallback
or_texts (s ∷ rest) fallback = s ∷ rest

unfoldable pub or_number : ℤ → ℤ → ℤ
or_number (pos zero) fallback = fallback
or_number (pos (suc n)) fallback = pos (suc n)
or_number (negsuc n) fallback = negsuc n

abbrev fill_profile :
    Text → List Text → Text → Text → DirectoryProfileConfig → DirectoryProfileConfig
fill_profile subject identifiers strategy status p = record p {
  subject_attribute = or_text p.subject_attribute subject;
  identifier_attributes = or_texts p.identifier_attributes identifiers;
  group_strategy = or_text p.group_strategy strategy;
  status_normalization = or_text p.status_normalization status;
}

-- The switch on the name; a profile with another name is left as it is.
unfoldable pub profile_by_name : DirectoryProfileConfig → DirectoryProfileConfig
profile_by_name p =
    if p.name == lit "active_directory"
    then fill_profile (lit "objectGUID")
        (lit "sAMAccountName" ∷ lit "userPrincipalName" ∷ lit "mail" ∷ []) (lit "ad_matching_rule")
        (lit "active_directory") p
    else if p.name == lit "openldap"
    then fill_profile (lit "entryUUID") (lit "uid" ∷ lit "mail" ∷ []) (lit "member_attribute_only")
        (lit "generic") p
    else if p.name == lit "generic"
    then fill_profile [] [] (lit "member_attribute_only") (lit "generic") p
    else p

unfoldable pub apply_directory_profile_defaults : DirectoryProfileConfig → DirectoryProfileConfig
apply_directory_profile_defaults p =
    profile_by_name (record p { name = or_text p.name (lit "generic") })

unfoldable pub paged_search_defaults : PagedSearchConfig → PagedSearchConfig
paged_search_defaults p =
    if p.enabled
    then record p {
      page_size = or_number p.page_size (pos 500);
      max_entries = or_number p.max_entries (pos 5000);
      timeout_ms = or_number p.timeout_ms (pos 3000);
    }
    else p

-- The groups' defaults, by the strategy of the profile.
unfoldable pub group_defaults : Text → GroupConfig → GroupConfig
group_defaults strategy g =
    let member = or_text g.member_attribute (lit "memberOf") in
    record g {
      member_attribute = member;
      search_member_attribute =
          or_text g.search_member_attribute
            (if strategy == lit "ad_matching_rule" then lit "member" else member);
      response_attribute = or_text g.response_attribute (lit "groups");
      id_attribute = or_text g.id_attribute (lit "cn");
      display_attribute = or_text g.display_attribute (lit "cn");
      max_depth = or_number g.max_depth (pos 1);
      max_groups = or_number g.max_groups (pos 100);
      timeout_ms = or_number g.timeout_ms (pos 1000);
    }

unfoldable pub ldap_defaults : LdapConfig → LdapConfig
ldap_defaults l =
    let profile = apply_directory_profile_defaults l.directory_profile in
    record l {
      directory_profile = record profile {
        paged_search = paged_search_defaults profile.paged_search;
      };
      lookup_mode = or_text l.lookup_mode (lit "search_then_bind");
      filter_template_mode = or_text l.filter_template_mode (lit "builtin_or_template");
      referrals = record l.referrals { mode = or_text l.referrals.mode (lit "disabled") };
      groups = group_defaults profile.group_strategy l.groups;
    }

unfoldable pub timeout_defaults : TimeoutConfig → TimeoutConfig
timeout_defaults t = record {
  ldap_connect_ms = or_number t.ldap_connect_ms (pos 500);
  ldap_search_ms = or_number t.ldap_search_ms (pos 1000);
  ldap_bind_ms = or_number t.ldap_bind_ms (pos 1500);
  request_ms = or_number t.request_ms (pos 2500);
}

unfoldable pub authrim_defaults : AuthrimConfig → AuthrimConfig
authrim_defaults a = record a {
  relay = record a.relay {
    reconnect_min_ms = or_number a.relay.reconnect_min_ms (pos 1000);
    reconnect_max_ms = or_number a.relay.reconnect_max_ms (pos 30000);
  };
  heartbeat = record a.heartbeat {
    transport = or_text a.heartbeat.transport (lit "direct");
    interval_ms = or_number a.heartbeat.interval_ms (pos 300000);
    timeout_ms = or_number a.heartbeat.timeout_ms (pos 5000);
  };
}

unfoldable pub protection_defaults : ProtectionConfig → ProtectionConfig
protection_defaults p = record {
  max_concurrent_requests = or_number p.max_concurrent_requests (pos 8);
  storm_window_ms = or_number p.storm_window_ms (pos 10000);
  storm_block_ms = or_number p.storm_block_ms (pos 30000);
  malformed_request_limit = or_number p.malformed_request_limit (pos 20);
  replay_limit = or_number p.replay_limit (pos 10);
  directory_error_limit = or_number p.directory_error_limit (pos 5);
}

-- The body of the loop over the tenants.
unfoldable pub tenant_defaults : TenantConfig → TenantConfig
tenant_defaults t = record t {
  ldap = ldap_defaults t.ldap;
  timeouts = timeout_defaults t.timeouts;
  authrim = authrim_defaults t.authrim;
  protection = protection_defaults t.protection;
}

unfoldable pub tenants_defaults : List TenantConfig → List TenantConfig
tenants_defaults [] = []
tenants_defaults (t ∷ tenants) = tenant_defaults t ∷ tenants_defaults tenants

unfoldable pub apply_defaults : Config → Config
apply_defaults cfg = record {
  deployment = record cfg.deployment { mode = or_text cfg.deployment.mode (lit "single_tenant") };
  server = record cfg.server {
    listen = or_text cfg.server.listen (lit "127.0.0.1:8080");
    state_dir = or_text cfg.server.state_dir (lit ".authrim-wordwarden");
  };
  tenants = tenants_defaults cfg.tenants;
}
