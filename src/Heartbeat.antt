-- ===== src/Heartbeat.antt =====
-- The heartbeat of internal/app/heartbeat.go. The JSON of a report and of what is hashed is a
-- parameter, and so is the HTTP call, which gives a status or, for an error, none. The timer is left
-- out but for its interval.
pub mod Fingerprint
pub mod Signing
use authrim_wordwarden.Prelude.{
  ℕ, Bool, true, false, not, ◌||◌, List, [], ◌∷◌, ◌++◌, Option, none, some, Text, lit, is_nil,
  if◌then◌else◌, ltb, leb, length, ℤ, pos, le_int,
}
use authrim_wordwarden.GoText.Encoding.{has_prefix}
use authrim_wordwarden.GoText.Escaping.{hex}
use authrim_wordwarden.GoText.Sorting.{sort_texts}
use authrim_wordwarden.GoText.Splitting.{join}
use authrim_wordwarden.GoTime.{Time, Duration, millis}
use authrim_wordwarden.Hmac.Canonical.{Crypto, newline}
use authrim_wordwarden.Config.{
  TenantConfig, LdapConfig, DirectoryProfileConfig, TimeoutConfig, ProtectionConfig,
}

pub record HeartbeatPayload : Type 0 where
  pub instance_id : Text
  pub display_name : Text
  pub transport : Text
  pub version : Text
  pub release_channel : Text
  pub started_at : Text
  pub health_status : Text
  pub health_summary : List (Text × Text)
  pub config_fingerprint : Text
  pub config_categories : List Text
  pub drift_severity : Text

pub record ProfileInput : Type 0 where
  pub name : Text
  pub subject_attribute : Text
  pub identifier_attributes : List Text
  pub group_strategy : Text
  pub status_normalization : Text
  pub paged_search_enabled : Bool
  pub paged_search_page_size : ℤ

pub record FingerprintInput : Type 0 where
  pub tenant_id : Text
  pub connector_id : Text
  pub ldap_url_count : ℕ
  pub ldap_schemes : List Text
  pub ldap_tls_verify : Bool
  pub ldap_start_tls : Bool
  pub lookup_mode : Text
  pub profile : ProfileInput
  pub attributes : List Text
  pub username_formats : List Text
  pub username_domains : List Text
  pub username_upn_suffixes : List Text
  pub groups_enabled : Bool
  pub referrals_mode : Text
  pub timeouts : TimeoutConfig
  pub protection : ProtectionConfig
  pub relay_enabled : Bool
  pub heartbeat_transport : Text
  pub heartbeat_interval_ms : ℤ
  pub heartbeat_timeout_ms : ℤ

pub record HttpRequest : Type 0 where
  pub method : Text
  pub url : Text
  pub headers : List (Text × Text)
  pub body : Text

-- `json.Marshal` of the two records, and the format of RFC 3339 in UTC.
pub record Codec : Type 0 where
  pub marshal_payload : HeartbeatPayload → Text
  pub marshal_fingerprint : FingerprintInput → Text
  pub format_rfc3339 : Time → Text

pub record HeartbeatClient : Type 0 where
  pub tenant : TenantConfig
  pub instance_id : Text
  pub started_at : Time
  pub key_id : Text
  pub secret : Text

abbrev pub heartbeat_algorithm : Text
heartbeat_algorithm = lit "AUTHRIM-WORDWARDEN-HEARTBEAT-HMAC-SHA256"

-- The fields of a tenant that are reported and signed for the relay too.
abbrev pub categories : List Text
categories =
    lit "tenant"
    ∷ lit "connector"
    ∷ lit "ldap"
    ∷ lit "profile"
    ∷ lit "protection"
    ∷ lit "relay"
    ∷ lit "heartbeat"
    ∷ []

unfoldable pub ldap_urls : LdapConfig → List Text
ldap_urls ldap = if is_nil ldap.url then ldap.urls else ldap.url ∷ ldap.urls

-- The body of the loop over the URLs.
unfoldable pub scheme_of : Text → Option Text
scheme_of raw =
    if has_prefix raw (lit "ldaps:")
    then some (lit "ldaps")
    else if has_prefix raw (lit "ldap:")
    then some (lit "ldap")
    else none

unfoldable pub schemes_of : List Text → List Text
schemes_of [] = []
schemes_of (raw ∷ rest) = elim (scheme_of raw) [
  | none ↦ schemes_of rest
  | some scheme ↦ scheme ∷ schemes_of rest
]

abbrev profile_input : DirectoryProfileConfig → ProfileInput
profile_input p = record {
  name = p.name;
  subject_attribute = p.subject_attribute;
  identifier_attributes = sort_texts p.identifier_attributes;
  group_strategy = p.group_strategy;
  status_normalization = p.status_normalization;
  paged_search_enabled = p.paged_search.enabled;
  paged_search_page_size = p.paged_search.page_size;
}

unfoldable pub fingerprint_input : TenantConfig → FingerprintInput
fingerprint_input t = record {
  tenant_id = t.tenant_id;
  connector_id = t.connector_id;
  ldap_url_count = length (ldap_urls t.ldap);
  ldap_schemes = sort_texts (schemes_of (ldap_urls t.ldap));
  ldap_tls_verify = t.ldap.tls.verify;
  ldap_start_tls = t.ldap.tls.start_tls;
  lookup_mode = t.ldap.lookup_mode;
  profile = profile_input t.ldap.directory_profile;
  attributes = sort_texts t.ldap.attributes;
  username_formats = sort_texts t.ldap.username.allowed_formats;
  username_domains = sort_texts t.ldap.username.allowed_domains;
  username_upn_suffixes = sort_texts t.ldap.username.allowed_upn_suffixes;
  groups_enabled = t.ldap.groups.enabled;
  referrals_mode = t.ldap.referrals.mode;
  timeouts = t.timeouts;
  protection = t.protection;
  relay_enabled = t.authrim.relay.enabled;
  heartbeat_transport = t.authrim.heartbeat.transport;
  heartbeat_interval_ms = t.authrim.heartbeat.interval_ms;
  heartbeat_timeout_ms = t.authrim.heartbeat.timeout_ms;
}

-- A time of zero or less gets its default.
abbrev or_default : Duration → ℕ → Duration
or_default d n = if le_int d (pos 0) then pos n else d

unfoldable pub heartbeat_interval : TenantConfig → Duration
heartbeat_interval t = or_default (millis t.authrim.heartbeat.interval_ms) 300000000000

unfoldable pub heartbeat_timeout : TenantConfig → Duration
heartbeat_timeout t = or_default (millis t.authrim.heartbeat.timeout_ms) 5000000000

module _ (codec : Codec) (crypto : Crypto) where
  unfoldable pub config_fingerprint : TenantConfig → Text
  config_fingerprint t =
      lit "sha256:" ++ hex (crypto.sha256 (codec.marshal_fingerprint (fingerprint_input t)))

  unfoldable pub build_heartbeat_payload : Text → TenantConfig → Text → Time → HeartbeatPayload
  build_heartbeat_payload version t instance_id started_at = record {
    instance_id = instance_id;
    display_name = t.authrim.heartbeat.display_name;
    transport = t.authrim.heartbeat.transport;
    version = version;
    release_channel = lit "stable";
    started_at = codec.format_rfc3339 started_at;
    health_status = lit "healthy";
    health_summary = (lit "process", lit "ok") ∷ [];
    config_fingerprint = config_fingerprint t;
    config_categories = categories;
    drift_severity = lit "none";
  }

-- The fields of the text that is signed, a line each.
abbrev pub heartbeat_lines : Crypto → HeartbeatClient → Text → Text → List Text
heartbeat_lines crypto c timestamp body =
    heartbeat_algorithm
    ∷ c.tenant.tenant_id
    ∷ c.tenant.connector_id
    ∷ c.instance_id
    ∷ c.key_id
    ∷ timestamp
    ∷ hex (crypto.sha256 body)
    ∷ []

unfoldable pub build_heartbeat_canonical : Crypto → HeartbeatClient → Text → Text → Text
build_heartbeat_canonical crypto c timestamp body =
    heartbeat_algorithm
    ++ (newline
        ++ (c.tenant.tenant_id
            ++ (newline
                ++ (c.tenant.connector_id
                    ++ (newline
                        ++ (c.instance_id
                            ++ (newline
                                ++ (c.key_id
                                    ++ (newline
                                        ++ (timestamp
                                            ++ (newline ++ hex (crypto.sha256 body))))))))))))

unfoldable pub sign_heartbeat_canonical : Crypto → Text → Text → Text
sign_heartbeat_canonical crypto canonical secret = hex (crypto.hmac_sha256 secret canonical)

-- The request that `send` makes.
unfoldable pub heartbeat_request : Codec → Crypto → Text → HeartbeatClient → Time → HttpRequest
heartbeat_request codec crypto version c now =
    let body =
      codec.marshal_payload
        (build_heartbeat_payload codec crypto version c.tenant c.instance_id c.started_at) in
    let timestamp = codec.format_rfc3339 now in
    record {
      method = lit "POST";
      url = c.tenant.authrim.heartbeat.url;
      headers =
          (lit "Content-Type", lit "application/json")
          ∷ (lit "X-Authrim-Heartbeat-Key-Id", c.key_id)
          ∷ (lit "X-Authrim-Heartbeat-Timestamp", timestamp)
          ∷ (
            lit "X-Authrim-Heartbeat-Signature",
            lit "sha256="
                ++ sign_heartbeat_canonical crypto
                    (build_heartbeat_canonical crypto c timestamp body) c.secret,
          )
          ∷ [];
      body = body;
    }

-- `send`: was the heartbeat taken?
unfoldable pub send :
    Codec → Crypto → Text → (HttpRequest → Option ℕ) → HeartbeatClient → Time → Bool
send codec crypto version call c now =
    elim (call (heartbeat_request codec crypto version c now)) as (λ r. Bool) [
      | none ↦ false
      | some status ↦ not (ltb status 200 || leb 300 status)
    ]
