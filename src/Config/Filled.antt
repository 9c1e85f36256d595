-- ===== src/Config/Filled.antt =====
-- What is in a configuration when internal/ports/config/config.go has applied the defaults.
use authrim_wordwarden.Prelude.{
  ℕ, ◌≡◌, ◌≢◌, ◌⊎◌, List, [], ◌∷◌, Option, none, some, Text, lit, text_eq, ◌==◌, ℤ, pos, Bool, true,
  false, if◌then◌else◌,
}
use authrim_wordwarden.Config.{
  Config, TenantConfig, LdapConfig, DirectoryProfileConfig, PagedSearchConfig, GroupConfig,
  AuthrimConfig,
}

-- Is a setting its default where it was unset, and what it was where it was set?
abbrev pub Fills {ℓ} : {A : Type ℓ} → A → A → A → A → Type ℓ
Fills unset fallback value result =
    ((value ≡ unset) × (result ≡ fallback)) ⊎ ((value ≢ unset) × (result ≡ value))

abbrev pub FillsText : Text → Text → Text → Type 0
FillsText = Fills []

abbrev pub FillsNumber : ℕ → ℤ → ℤ → Type 0
FillsNumber n = Fills (pos 0) (pos n)

-- The settings of a profile that is built in.
pub record Preset : Type 0 where
  pub subject_attribute : Text
  pub identifier_attributes : List Text
  pub group_strategy : Text
  pub status_normalization : Text

abbrev pub preset_of : Text → Option Preset
preset_of name =
    if name == lit "active_directory"
    then some (record {
      subject_attribute = lit "objectGUID";
      identifier_attributes = lit "sAMAccountName" ∷ lit "userPrincipalName" ∷ lit "mail" ∷ [];
      group_strategy = lit "ad_matching_rule";
      status_normalization = lit "active_directory";
    })
    else if name == lit "openldap"
    then some (record {
      subject_attribute = lit "entryUUID";
      identifier_attributes = lit "uid" ∷ lit "mail" ∷ [];
      group_strategy = lit "member_attribute_only";
      status_normalization = lit "generic";
    })
    else if name == lit "generic"
    then some (record {
      subject_attribute = [];
      identifier_attributes = [];
      group_strategy = lit "member_attribute_only";
      status_normalization = lit "generic";
    })
    else none

-- The four settings of a profile, filled from a preset. A profile of another name has none.
abbrev pub FillsPreset : Option Preset → DirectoryProfileConfig → DirectoryProfileConfig → Type 0
FillsPreset none p q =
    (q.subject_attribute ≡ p.subject_attribute)
    × (q.identifier_attributes ≡ p.identifier_attributes)
    × (q.group_strategy ≡ p.group_strategy)
    × (q.status_normalization ≡ p.status_normalization)
FillsPreset (some preset) p q =
    FillsText preset.subject_attribute p.subject_attribute q.subject_attribute
    × Fills [] preset.identifier_attributes p.identifier_attributes q.identifier_attributes
    × FillsText preset.group_strategy p.group_strategy q.group_strategy
    × FillsText preset.status_normalization p.status_normalization q.status_normalization

-- Pages have defaults where they are enabled.
abbrev pub FillsPages : Bool → PagedSearchConfig → PagedSearchConfig → Type 0
FillsPages false p q = q ≡ p
FillsPages true p q =
    (q.enabled ≡ true)
    × FillsNumber 500 p.page_size q.page_size
    × FillsNumber 5000 p.max_entries q.max_entries
    × FillsNumber 3000 p.timeout_ms q.timeout_ms

pub record IsFilledProfile (p q : DirectoryProfileConfig) : Type 0 where
  pub name : FillsText (lit "generic") p.name q.name
  pub preset : FillsPreset (preset_of q.name) p q
  pub pages : FillsPages p.paged_search.enabled p.paged_search q.paged_search

pub record IsFilledGroups (strategy : Text) (g h : GroupConfig) : Type 0 where
  pub member_attribute : FillsText (lit "memberOf") g.member_attribute h.member_attribute
  pub search_member_attribute :
      FillsText
        (if strategy == lit "ad_matching_rule" then lit "member" else h.member_attribute)
        g.search_member_attribute
        h.search_member_attribute
  pub response_attribute : FillsText (lit "groups") g.response_attribute h.response_attribute
  pub id_attribute : FillsText (lit "cn") g.id_attribute h.id_attribute
  pub display_attribute : FillsText (lit "cn") g.display_attribute h.display_attribute
  pub max_depth : FillsNumber 1 g.max_depth h.max_depth
  pub max_groups : FillsNumber 100 g.max_groups h.max_groups
  pub timeout : FillsNumber 1000 g.timeout_ms h.timeout_ms
  pub kept : (h.enabled ≡ g.enabled) × (h.search_base_dn ≡ g.search_base_dn)

pub record IsFilledLdap (l m : LdapConfig) : Type 0 where
  pub profile : IsFilledProfile l.directory_profile m.directory_profile
  pub lookup_mode : FillsText (lit "search_then_bind") l.lookup_mode m.lookup_mode
  pub filter_template_mode :
      FillsText (lit "builtin_or_template") l.filter_template_mode m.filter_template_mode
  pub referral_mode : FillsText (lit "disabled") l.referrals.mode m.referrals.mode
  pub groups : IsFilledGroups m.directory_profile.group_strategy l.groups m.groups
  pub kept_referrals : record m.referrals { mode = l.referrals.mode } ≡ l.referrals
  pub kept :
      record m {
        directory_profile = l.directory_profile;
        lookup_mode = l.lookup_mode;
        filter_template_mode = l.filter_template_mode;
        referrals = l.referrals;
        groups = l.groups;
      }
      ≡ l

pub record IsFilledAuthrim (a b : AuthrimConfig) : Type 0 where
  pub reconnect_min : FillsNumber 1000 a.relay.reconnect_min_ms b.relay.reconnect_min_ms
  pub reconnect_max : FillsNumber 30000 a.relay.reconnect_max_ms b.relay.reconnect_max_ms
  pub transport : FillsText (lit "direct") a.heartbeat.transport b.heartbeat.transport
  pub interval : FillsNumber 300000 a.heartbeat.interval_ms b.heartbeat.interval_ms
  pub timeout : FillsNumber 5000 a.heartbeat.timeout_ms b.heartbeat.timeout_ms
  pub kept_relay : (b.relay.enabled ≡ a.relay.enabled) × (b.relay.url ≡ a.relay.url)
  pub kept_heartbeat :
      record b.heartbeat {
        transport = a.heartbeat.transport;
        interval_ms = a.heartbeat.interval_ms;
        timeout_ms = a.heartbeat.timeout_ms;
      }
      ≡ a.heartbeat
  pub kept : record b { relay = a.relay; heartbeat = a.heartbeat } ≡ a

pub record IsFilledTenant (t u : TenantConfig) : Type 0 where
  pub ldap : IsFilledLdap t.ldap u.ldap
  pub authrim : IsFilledAuthrim t.authrim u.authrim
  pub connect : FillsNumber 500 t.timeouts.ldap_connect_ms u.timeouts.ldap_connect_ms
  pub search : FillsNumber 1000 t.timeouts.ldap_search_ms u.timeouts.ldap_search_ms
  pub bind : FillsNumber 1500 t.timeouts.ldap_bind_ms u.timeouts.ldap_bind_ms
  pub request : FillsNumber 2500 t.timeouts.request_ms u.timeouts.request_ms
  pub concurrency :
      FillsNumber 8 t.protection.max_concurrent_requests u.protection.max_concurrent_requests
  pub storm_window : FillsNumber 10000 t.protection.storm_window_ms u.protection.storm_window_ms
  pub storm_block : FillsNumber 30000 t.protection.storm_block_ms u.protection.storm_block_ms
  pub malformed :
      FillsNumber 20 t.protection.malformed_request_limit u.protection.malformed_request_limit
  pub replays : FillsNumber 10 t.protection.replay_limit u.protection.replay_limit
  pub directory_errors :
      FillsNumber 5 t.protection.directory_error_limit u.protection.directory_error_limit
  pub kept : (u.tenant_id ≡ t.tenant_id) × (u.connector_id ≡ t.connector_id)

-- The tenants, one for one and in order.
abbrev pub AreFilled : List TenantConfig → List TenantConfig → Type 0
AreFilled [] [] = Unit
AreFilled (t ∷ tenants) (u ∷ filled) = IsFilledTenant t u × AreFilled tenants filled
AreFilled [] (u ∷ filled) = ⊥
AreFilled (t ∷ tenants) [] = ⊥

pub record IsFilled (c d : Config) : Type 0 where
  pub mode : FillsText (lit "single_tenant") c.deployment.mode d.deployment.mode
  pub listen : FillsText (lit "127.0.0.1:8080") c.server.listen d.server.listen
  pub state_dir : FillsText (lit ".authrim-wordwarden") c.server.state_dir d.server.state_dir
  pub kept_server :
      record d.server { listen = c.server.listen; state_dir = c.server.state_dir } ≡ c.server
  pub tenants : AreFilled c.tenants d.tenants
