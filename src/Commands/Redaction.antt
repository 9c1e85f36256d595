-- ===== src/Commands/Redaction.antt =====
-- What the bundle of `diagnostics bundle`, of internal/app/command.go, does not tell.
use authrim_wordwarden.Prelude.{
  ◌≡◌, refl, ap, suc, List, [], ◌∷◌, map, Option, none, some, Text, lit, is_nil, length,
}
use authrim_wordwarden.GoUrl.{UrlParser}
use authrim_wordwarden.Config.{Config, TenantConfig, LdapConfig, HmacKeyConfig}
use authrim_wordwarden.Commands.Diagnostics.{
  is_configured, url_count, ldap_summary, tenant_summary, build_diagnostic_bundle,
}

abbrev blank_key : HmacKeyConfig
blank_key = record { kid = []; secret_ref = [] }

abbrev blank_previous : Option HmacKeyConfig → Option HmacKeyConfig
blank_previous none = none
blank_previous (some key) = some blank_key

-- An endpoint without its address.
abbrev blank_url : Text → Text
blank_url [] = []
blank_url (c ∷ url) = lit "-"

-- The directory without its endpoints' addresses, its accounts, its names, its filter and the
-- references to files and secrets.
abbrev redact_ldap : LdapConfig → LdapConfig
redact_ldap l = record l {
  url = blank_url l.url;
  urls = map blank_url l.urls;
  tls = record l.tls { server_name = []; ca_file_ref = [] };
  bind_dn = [];
  bind_password_ref = [];
  base_dn = [];
  dn_template = [];
  user_filter = [];
  referrals = record l.referrals { allowed_urls = [] };
}

-- A tenant without these, the references to its keys' and its audit's secrets, and the heartbeat's
-- URL and keys.
abbrev pub redact : TenantConfig → TenantConfig
redact t = record t {
  authrim = record t.authrim {
    hmac_keys = record {
      active = record t.authrim.hmac_keys.active { secret_ref = [] };
      previous = blank_previous t.authrim.hmac_keys.previous;
    };
    audit_hash_secret_ref = [];
    heartbeat = record t.authrim.heartbeat { url = []; key = blank_key; previous = none };
  };
  ldap = redact_ldap t.ldap;
}

length-map_urls : (urls : List Text) → length (map blank_url urls) ≡ length urls
length-map_urls [] = refl
length-map_urls (url ∷ urls) = ap suc (length-map_urls urls)

is_nil-blank_url : (url : Text) → is_nil (blank_url url) ≡ is_nil url
unfolding lit
is_nil-blank_url [] = refl
is_nil-blank_url (c ∷ url) = refl

is_configured-blank :
    (key : Option HmacKeyConfig) → is_configured (blank_previous key) ≡ is_configured key
is_configured-blank none = refl
is_configured-blank (some key) = refl

module _ (urls : UrlParser) where
  summary_redacted : (t : TenantConfig) → tenant_summary urls (redact t) ≡ tenant_summary urls t
  unfolding tenant_summary ldap_summary url_count
  summary_redacted t =
      rw
        (
          is_nil-blank_url t.ldap.url,
          length-map_urls t.ldap.urls,
          is_configured-blank t.authrim.hmac_keys.previous,
        )
        refl

  summaries_redacted :
      (tenants : List TenantConfig)
      → map (tenant_summary urls) (map redact tenants) ≡ map (tenant_summary urls) tenants
  summaries_redacted [] = refl
  summaries_redacted (t ∷ tenants) = cc (summary_redacted t, summaries_redacted tenants)

  -- The bundle is the same for the configuration without its references to secrets and files, the
  -- addresses of its directories and of its heartbeats, the keys of its heartbeats, the
  -- identifiers of its previous keys, the names of its accounts, its bases, templates and filters:
  -- nothing of them is in the bundle.
  pub build_diagnostic_bundle_redacted :
      (version : Text) (cfg : Config)
      → build_diagnostic_bundle urls version (record cfg { tenants = map redact cfg.tenants })
        ≡ build_diagnostic_bundle urls version cfg
  unfolding build_diagnostic_bundle
  build_diagnostic_bundle_redacted version cfg = rw (summaries_redacted cfg.tenants) refl
