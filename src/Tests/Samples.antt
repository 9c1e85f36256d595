-- ===== src/Tests/Samples.antt =====
-- A configuration with one tenant and a relay, and the libraries and files round it.
use authrim_wordwarden.Prelude.{
  true, false, [], ◌++◌, ◌∷◌, none, some, Text, lit, pos, if◌then◌else◌, text_eq,
}
use authrim_wordwarden.GoText.Encoding.{has_prefix}
use authrim_wordwarden.GoUrl.{UrlParser}
use authrim_wordwarden.Hmac.Canonical.{Crypto}
use authrim_wordwarden.Config.{Config, TenantConfig, HmacKeyConfig}
use authrim_wordwarden.Config.Patterns.{Platform}
use authrim_wordwarden.Secrets.Resolving.{Host}
use authrim_wordwarden.Heartbeat.{Codec}
use authrim_wordwarden.Commands.Serve.{Machine}
use authrim_wordwarden.Instance.{StateDirectory, missing, content}
use authrim_wordwarden.Tests.Names.{unicode}

abbrev pub relay_path : Text
relay_path = lit "/api/auth/directory-relay/connect/t/wwcon_ABCDEFGHIJKLMNOP"

-- An LDAP URL, the relay's or none.
abbrev pub urls : UrlParser
urls = record {
  parse = λ s.
      if has_prefix s (lit "ldaps:")
      then some (record {
        scheme = lit "ldaps";
        host = lit "dc";
        hostname = lit "dc";
        path = [];
        escaped_path = [];
      })
      else if has_prefix s (lit "wss:")
      then some (record {
        scheme = lit "wss";
        host = lit "r";
        hostname = lit "r";
        path = relay_path;
        escaped_path = relay_path;
      })
      else if has_prefix s (lit "https:")
      then some (record {
        scheme = lit "https";
        host = lit "f";
        hostname = lit "f";
        path = lit "/feed";
        escaped_path = lit "/feed";
      })
      else none;
  path_unescape = λ s. some s;
}

abbrev pub platform : Platform
platform = record { unicode = unicode; urls = urls; quote = λ s. s }

abbrev pub crypto : Crypto
crypto = record { sha256 = λ s. s; hmac_sha256 = λ secret s. s }

abbrev pub host : Host
host = record { lookup_env = λ name. some (lit "s3cret"); read_file = λ path. some (lit "file") }

abbrev pub codec : Codec
codec = record {
  marshal_payload = λ p. p.config_fingerprint;
  marshal_fingerprint = λ i. i.tenant_id;
  format_rfc3339 = λ t. lit "now";
}

abbrev pub no_key : HmacKeyConfig
no_key = record { kid = []; secret_ref = [] }

-- Fields that defaults fill in are left out.
abbrev pub tenant : TenantConfig
tenant = record {
  tenant_id = lit "t";
  connector_id = lit "wwcon_ABCDEFGHIJKLMNOP";
  authrim = record {
    hmac_keys = record {
      active = record { kid = lit "k"; secret_ref = lit "env:K" };
      previous = some (record { kid = lit "old"; secret_ref = lit "file:p" });
    };
    audit_hash_secret_ref = lit "file:a";
    relay = record {
      enabled = true;
      url = lit "wss://r";
      reconnect_min_ms = pos 0;
      reconnect_max_ms = pos 0;
    };
    heartbeat = record {
      enabled = false;
      url = [];
      transport = [];
      display_name = [];
      key = no_key;
      previous = none;
      interval_ms = pos 0;
      timeout_ms = pos 0;
    };
  };
  ldap = record {
    url = lit "ldaps://dc";
    urls = [];
    tls = record { verify = true; server_name = []; ca_file_ref = []; start_tls = false };
    directory_profile = record {
      name = [];
      subject_attribute = [];
      identifier_attributes = lit "uid" ∷ lit "mail" ∷ [];
      group_strategy = [];
      status_normalization = [];
      paged_search = record {
        enabled = false;
        page_size = pos 0;
        max_entries = pos 0;
        timeout_ms = pos 0;
      };
    };
    lookup_mode = [];
    username = record {
      allowed_formats = lit "email" ∷ [];
      allowed_domains = [];
      allowed_upn_suffixes = [];
      normalization = record {
        trim = false;
        unicode_form = [];
        letter_case = [];
        reject_domain_mismatch = false;
      };
    };
    bind_dn = lit "cn=a";
    bind_password_ref = lit "env:B";
    base_dn = lit "dc=x";
    dn_template = [];
    user_filter = lit "(uid={username})";
    filter_template_mode = [];
    attributes = lit "mail" ∷ lit "cn" ∷ [];
    referrals = record { mode = []; allowed_urls = []; allow_service_bind_reuse = false };
    groups = record {
      enabled = false;
      member_attribute = [];
      search_member_attribute = [];
      response_attribute = [];
      id_attribute = [];
      display_attribute = [];
      search_base_dn = [];
      max_depth = pos 0;
      max_groups = pos 0;
      timeout_ms = pos 0;
    };
    pool = record { max_idle = pos 0 };
  };
  timeouts = record {
    ldap_connect_ms = pos 0;
    ldap_bind_ms = pos 0;
    ldap_search_ms = pos 0;
    request_ms = pos 0;
  };
  protection = record {
    max_concurrent_requests = pos 0;
    storm_window_ms = pos 0;
    storm_block_ms = pos 0;
    malformed_request_limit = pos 0;
    replay_limit = pos 0;
    directory_error_limit = pos 0;
  };
}

abbrev pub sample : Config
sample = record {
  deployment = record { mode = [] };
  server = record {
    listen = [];
    public_base_url = [];
    expose_operations = false;
    state_dir = [];
    tls = record { enabled = false; cert_file_ref = []; key_file_ref = [] };
  };
  tenants = tenant ∷ [];
}

-- A directory without an identity yet, and the bytes for one.
abbrev pub directory : StateDirectory
directory = record { made = true; file = missing; writable = true; leftover = missing }

abbrev pub bytes : Text
bytes = 0 ∷ 1 ∷ 2 ∷ 3 ∷ 4 ∷ 5 ∷ 6 ∷ 7 ∷ 8 ∷ 9 ∷ 10 ∷ 11 ∷ 12 ∷ 13 ∷ 14 ∷ 255 ∷ []

abbrev pub id : Text
id = lit "wwi_AAECAwQFBgcICQoLDA0O_w"

abbrev pub kept : StateDirectory
kept = record directory { file = content (id ++ lit "\n") }

abbrev pub machine : Machine
machine = record {
  host = host;
  platform = platform;
  codec = codec;
  crypto = crypto;
  decode = λ text. some sample;
  random = some bytes;
  directory = directory;
  now = 5;
}
