-- ===== src/Config/Filling.antt =====
-- That applyDefaults of internal/ports/config/config.go fills in every setting.
use authrim_wordwarden.Prelude.{
  ◌≡◌, refl, inl, inr, List, [], ◌∷◌, Text, lit, text_eq, ◌==◌, ℤ, pos, negsuc, zero, suc,
  Bool-cases, arith,
}
use authrim_wordwarden.Config.{
  Config, TenantConfig, LdapConfig, DirectoryProfileConfig, PagedSearchConfig, GroupConfig,
  AuthrimConfig,
}
use authrim_wordwarden.Config.Defaults.{
  or_text, or_texts, or_number, profile_by_name, apply_directory_profile_defaults,
  paged_search_defaults, group_defaults, ldap_defaults, timeout_defaults, authrim_defaults,
  protection_defaults, tenant_defaults, tenants_defaults, apply_defaults,
}
use authrim_wordwarden.Config.Filled.{
  Fills, FillsText, FillsPreset, FillsPages, preset_of, IsFilledProfile, IsFilledGroups,
  IsFilledLdap, IsFilledAuthrim, IsFilledTenant, AreFilled, IsFilled,
}

or_text-Fills : (s fallback : Text) → FillsText fallback s (or_text s fallback)
unfolding or_text
or_text-Fills [] fallback = inl (refl, refl)
or_text-Fills (c ∷ s) fallback = inr ((λ h. absurd (cc h)), refl)

or_texts-Fills : (l fallback : List Text) → Fills [] fallback l (or_texts l fallback)
unfolding or_texts
or_texts-Fills [] fallback = inl (refl, refl)
or_texts-Fills (s ∷ l) fallback = inr ((λ h. absurd (cc h)), refl)

or_number-Fills : (n fallback : ℤ) → Fills (pos 0) fallback n (or_number n fallback)
unfolding or_number
or_number-Fills (pos zero) fallback = inl (refl, refl)
or_number-Fills (pos (suc n)) fallback = inr ((λ h. absurd (cc h)), refl)
or_number-Fills (negsuc n) fallback = inr ((λ h. absurd (cc h)), refl)

-- What the switch on the name leaves.
profile_keeps :
    (p : DirectoryProfileConfig)
    → ((profile_by_name p).name ≡ p.name) × ((profile_by_name p).paged_search ≡ p.paged_search)
unfolding profile_by_name
profile_keeps p = ground (arith)

-- Whatever name the profile had, and whatever pages are filled in.
preset_fills :
    (p : DirectoryProfileConfig) (name : Text) (pages : PagedSearchConfig)
    → FillsPreset
        (preset_of (profile_by_name p).name)
        (record p { name = name })
        (record (profile_by_name p) { paged_search = pages })
unfolding profile_by_name
preset_fills p name pages = elim (Bool-cases (p.name == lit "active_directory")) [
  | inl ad ↦ rw ad (rw ad (filled _ _ _ _))
  | inr no_ad ↦ elim (Bool-cases (p.name == lit "openldap")) [
    | inl open_ldap ↦ rw (no_ad, open_ldap) (rw (no_ad, open_ldap) (filled _ _ _ _))
    | inr no_open_ldap ↦ elim (Bool-cases (p.name == lit "generic")) [
      | inl generic ↦
          rw (no_ad, no_open_ldap, generic) (rw (no_ad, no_open_ldap, generic) (filled _ _ _ _))
      | inr other ↦
          rw (no_ad, no_open_ldap, other) (rw (no_ad, no_open_ldap, other) (refl, refl, refl, refl))
    ]
  ]
]
  where
    filled :
        (subject : Text) (identifiers : List Text) (strategy status : Text)
        → FillsText subject p.subject_attribute (or_text p.subject_attribute subject)
          × Fills [] identifiers p.identifier_attributes
              (or_texts p.identifier_attributes identifiers)
          × FillsText strategy p.group_strategy (or_text p.group_strategy strategy)
          × FillsText status p.status_normalization (or_text p.status_normalization status)
    filled subject identifiers strategy status =
        (or_text-Fills _ _, or_texts-Fills _ _, or_text-Fills _ _, or_text-Fills _ _)

pages_fill : (p : PagedSearchConfig) → FillsPages p.enabled p (paged_search_defaults p)
unfolding paged_search_defaults
pages_fill p = elim (Bool-cases p.enabled) [
  | inl on ↦ rw on (refl, or_number-Fills _ _, or_number-Fills _ _, or_number-Fills _ _)
  | inr off ↦ rw off refl
]

profile-IsFilled :
    (p : DirectoryProfileConfig)
    → IsFilledProfile p (record (apply_directory_profile_defaults p) {
      paged_search = paged_search_defaults (apply_directory_profile_defaults p).paged_search;
    })
unfolding apply_directory_profile_defaults
profile-IsFilled p =
    let named : DirectoryProfileConfig = record p { name = or_text p.name (lit "generic") } in
    record {
      name = rw (profile_keeps named).0 (or_text-Fills p.name (lit "generic"));
      preset = preset_fills named p.name _;
      pages = rw (profile_keeps named).1 (pages_fill p.paged_search);
    }

groups-IsFilled :
    (strategy : Text) (g : GroupConfig) → IsFilledGroups strategy g (group_defaults strategy g)
unfolding group_defaults
groups-IsFilled strategy g = record {
  member_attribute = or_text-Fills _ _;
  search_member_attribute = or_text-Fills _ _;
  response_attribute = or_text-Fills _ _;
  id_attribute = or_text-Fills _ _;
  display_attribute = or_text-Fills _ _;
  max_depth = or_number-Fills _ _;
  max_groups = or_number-Fills _ _;
  timeout = or_number-Fills _ _;
  kept = (refl, refl);
}

ldap-IsFilled : (l : LdapConfig) → IsFilledLdap l (ldap_defaults l)
unfolding ldap_defaults
ldap-IsFilled l = record {
  profile = profile-IsFilled l.directory_profile;
  lookup_mode = or_text-Fills _ _;
  filter_template_mode = or_text-Fills _ _;
  referral_mode = or_text-Fills _ _;
  groups = groups-IsFilled _ l.groups;
  kept_referrals = refl;
  kept = refl;
}

authrim-IsFilled : (a : AuthrimConfig) → IsFilledAuthrim a (authrim_defaults a)
unfolding authrim_defaults
authrim-IsFilled a = record {
  reconnect_min = or_number-Fills _ _;
  reconnect_max = or_number-Fills _ _;
  transport = or_text-Fills _ _;
  interval = or_number-Fills _ _;
  timeout = or_number-Fills _ _;
  kept_relay = (refl, refl);
  kept_heartbeat = refl;
  kept = refl;
}

tenant-IsFilled : (t : TenantConfig) → IsFilledTenant t (tenant_defaults t)
unfolding tenant_defaults timeout_defaults protection_defaults
tenant-IsFilled t = record {
  ldap = ldap-IsFilled t.ldap;
  authrim = authrim-IsFilled t.authrim;
  connect = or_number-Fills _ _;
  search = or_number-Fills _ _;
  bind = or_number-Fills _ _;
  request = or_number-Fills _ _;
  concurrency = or_number-Fills _ _;
  storm_window = or_number-Fills _ _;
  storm_block = or_number-Fills _ _;
  malformed = or_number-Fills _ _;
  replays = or_number-Fills _ _;
  directory_errors = or_number-Fills _ _;
  kept = (refl, refl);
}

tenants_filled : (tenants : List TenantConfig) → AreFilled tenants (tenants_defaults tenants)
unfolding tenants_defaults
tenants_filled [] = tt
tenants_filled (t ∷ tenants) = (tenant-IsFilled t, tenants_filled tenants)

-- The defaults leave every tenant in its place. A setting that has a default and was unset gets it,
-- with the profile's from its name, those of the pages where they are enabled, and the attribute of
-- the members in a search from the strategy; every other setting is what it was.
pub apply_defaults-IsFilled : (cfg : Config) → IsFilled cfg (apply_defaults cfg)
unfolding apply_defaults
apply_defaults-IsFilled cfg = record {
  mode = or_text-Fills _ _;
  listen = or_text-Fills _ _;
  state_dir = or_text-Fills _ _;
  kept_server = refl;
  tenants = tenants_filled cfg.tenants;
}
