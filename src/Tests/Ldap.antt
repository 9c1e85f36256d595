-- ===== src/Tests/Ldap.antt =====
-- The theorems on the LDAP client, against a directory with one user.
use authrim_wordwarden.Prelude.{
  ℕ, ◌+◌, ◌*◌, ◌≡◌, ◌≢◌, ◌≤◌, ◌<◌, ◌⊎◌, refl, true, false, ◌&&◌, List, [], ◌∷◌, Option, none, some,
  Text, lit, text_beq, text_eq, ◌==◌, pos, if◌then◌else◌, contains, IsDistinct, ◌↔◌, arith,
}
use authrim_wordwarden.GoTime.{millis}
use authrim_wordwarden.Directory.{
  VerifyPasswordRequest, VerifyPasswordResult, successful_verification, first_facts, is_success,
  credential_result,
}
use authrim_wordwarden.Config.{LdapConfig}
use authrim_wordwarden.Ldap.{Library, Client}
use authrim_wordwarden.Ldap.Network.{
  ldap_error, out_of_rounds, Entry, Control, paging, SearchRequest, whole_subtree, SearchResult,
  found, running, Network, failed, ◌>>=◌, attempt,
}
use authrim_wordwarden.Ldap.Timeouts.{
  timeout_bounds, timeout_within_context, duration_from_ms, ldap_time_limit_seconds,
}
use authrim_wordwarden.Ldap.Verdicts.{bind_verdicts, IsRefusal}
use authrim_wordwarden.Ldap.Attributes.{
  requested_attributes, select_names, requested_attribute_includes, wants_groups, search_attributes,
  subject_value, entry_subject_value, values_of, entry_attributes,
}
use authrim_wordwarden.Ldap.Selection.{requested_attributes_lem}
use authrim_wordwarden.Ldap.Paging.{
  IsBounded, HasEnded, paging_bound, paging_ends, empty_pages_spin,
}
use authrim_wordwarden.Ldap.Search.{
  search_with_paging_limit, search_pages, no_result, raw_search, search_plain, search_once, search,
}
use authrim_wordwarden.Ldap.Nesting.{IsFair, bfs_group_facts-IsFair}
use authrim_wordwarden.Ldap.Groups.{bfs_group_facts, group_facts}
use authrim_wordwarden.Ldap.Connections.{
  capacity, service_search_available, endpoint_urls, has_pool, take_first, take_idle, put_idle,
  close, release_conn, normalizing, within, set_operation_timeout, raw_bind, bind_service,
  bind_user, restore_service_bind_for_reuse, validate_pooled_conn, server_name, root_cas,
  tls_config, raw_dial, dial_endpoint, dial_first, dial, use_idle, acquire_conn,
}
use authrim_wordwarden.Ldap.Verify.{
  subject_id, lookup_mode, single_search_entry, resolve_user_with_attributes, succeed, on_bind,
  succeed_as, bind_resolved, verify_search_then_bind, verify_on, verify_and_release,
  verify_password,
}
use authrim_wordwarden.GoText.{
  is_ascii, is_space, lower_byte, drop_spaces, drop_spaces_right, to_lower, trim_space,
  contains_byte, cut, equal_fold,
}
use authrim_wordwarden.Username.{
  detect_format, among, format_allowed, folds_to_one, check_domain, validate_domain, normalized,
  preprocess,
}
use authrim_wordwarden.GoText.Encoding.{has_prefix, drop_bytes, replace_from, replace_all}
use authrim_wordwarden.Ldap.Errors.{
  normalize_ldap_error, credential_verdict_from_bind_error, user_resolution_failure_result,
}
use authrim_wordwarden.Ldap.Pooling.{IsSound}
use authrim_wordwarden.Ldap.Sessions.{
  new_session, verify_all, IsProven, verify_password-IsProven, verify_all-IsSound,
}
use authrim_wordwarden.Tests.Names.{unicode, username_config}

abbrev library : Library
library = record {
  unicode = unicode;
  nfkc = λ s. s;
  urls = record { parse = λ s. none; path_unescape = λ s. some s };
  escape_filter = λ s. s;
  escape_dn = λ s. s;
  attribute_values = λ entry name. [];
  find_paging = first_cookie;
}
  where
    first_cookie : List Control → Option (Option Text)
    first_cookie [] = none
    first_cookie (paging size cookie ∷ rest) = some (some cookie)
    first_cookie (other ∷ rest) = first_cookie rest

abbrev config : LdapConfig
config = record {
  url = lit "ldaps://dc";
  urls = [];
  tls = record { verify = true; server_name = lit "dc"; ca_file_ref = []; start_tls = false };
  directory_profile = record {
    name = lit "generic";
    subject_attribute = [];
    identifier_attributes = [];
    group_strategy = lit "bfs_member_search";
    status_normalization = lit "generic";
    paged_search = record {
      enabled = false;
      page_size = pos 10;
      max_entries = pos 3;
      timeout_ms = pos 1000;
    };
  };
  lookup_mode = [];
  username = username_config;
  bind_dn = lit "cn=svc";
  bind_password_ref = lit "env:SVC";
  base_dn = lit "dc=x";
  dn_template = [];
  user_filter = lit "(uid={username})";
  filter_template_mode = [];
  attributes = lit "mail" ∷ [];
  referrals = record { mode = []; allowed_urls = []; allow_service_bind_reuse = false };
  groups = record {
    enabled = false;
    member_attribute = lit "memberOf";
    search_member_attribute = lit "member";
    response_attribute = lit "groups";
    id_attribute = [];
    display_attribute = [];
    search_base_dn = [];
    max_depth = pos 2;
    max_groups = pos 5;
    timeout_ms = pos 0;
  };
  pool = record { max_idle = pos 1 };
}

abbrev client : Client
client = record {
  config = config;
  bind_password = lit "s";
  timeouts = record {
    ldap_connect_ms = pos 10;
    ldap_bind_ms = pos 10;
    ldap_search_ms = pos 10;
    request_ms = pos 100;
  };
}

abbrev ann : Entry
ann = record { dn = lit "uid=ann"; attributes = [] }

-- It accepts every bind but that with the password "no", and finds the same entry every time.
abbrev network : Network
network = record {
  context = λ log. running none;
  dial = λ log endpoint timeout tls. none;
  start_tls = λ log conn tls. none;
  bind = λ log conn name password. if password == lit "no" then some (ldap_error 49 []) else none;
  search = λ log conn request.
      found (record { entries = ann ∷ []; referrals = []; controls = paging 10 (lit "c") ∷ [] });
  read_file = λ log name. none;
  has_certificates = λ text. false;
  rounds = 9;
}

abbrev search_request : SearchRequest
search_request = record {
  base_dn = lit "dc=x";
  scope = whole_subtree;
  size_limit = pos 0;
  time_limit = 1;
  filter = lit "(uid=*)";
  attributes = [];
  controls = [];
}

abbrev request : VerifyPasswordRequest
request = record {
  username = lit "Ann@corp.example";
  password = lit "pw";
  attribute_names = lit "mail" ∷ [];
}

abbrev success : VerifyPasswordResult
success =
    successful_verification
      (record { directory_id = lit "uid=ann"; username = lit "ann@corp.example" }) [] ([] ∷ [])

verify_password-IsProven_example :
    IsProven library network client request new_session
      (verify_password library network client request new_session).1
      success
unfolding ◌>>=◌ attempt normalize_ldap_error credential_verdict_from_bind_error
    user_resolution_failure_result duration_from_ms timeout_within_context ldap_time_limit_seconds
    select_names requested_attributes requested_attribute_includes wants_groups search_attributes
    subject_value entry_subject_value values_of entry_attributes service_search_available
    endpoint_urls has_pool take_first take_idle put_idle close release_conn normalizing within
    set_operation_timeout raw_bind bind_service bind_user restore_service_bind_for_reuse
    validate_pooled_conn server_name root_cas tls_config raw_dial dial_endpoint dial_first dial
    use_idle acquire_conn raw_search search_plain search_once search group_facts subject_id
    lookup_mode single_search_entry resolve_user_with_attributes succeed on_bind succeed_as
    bind_resolved verify_search_then_bind verify_on verify_and_release verify_password is_ascii
    is_space lower_byte drop_spaces drop_spaces_right to_lower trim_space contains_byte cut
    equal_fold detect_format among format_allowed folds_to_one check_domain validate_domain
    normalized preprocess lit text_beq has_prefix drop_bytes replace_from replace_all contains
    successful_verification first_facts is_success credential_result
verify_password-IsProven_example =
    verify_password-IsProven library network client request new_session success
      (record { held = tt; distinct = tt; fits = omega arith }) refl refl

verify_all-IsSound_example :
    IsSound client (verify_all library network client (request ∷ request ∷ []) new_session)
verify_all-IsSound_example = verify_all-IsSound library network client (request ∷ request ∷ [])

timeout_bounds_example :
    (n : ℕ) × (millis (pos 20) ≡ pos n)
    × (1000000 ≤ n)
    × ((n ≤ 30000000) ⊎ (n ≡ 1000000))
    × (n ≤ ldap_time_limit_seconds (millis (pos 20)) * 1000000000)
    × (ldap_time_limit_seconds (millis (pos 20)) * 1000000000 < n + 1000000000)
unfolding timeout_within_context duration_from_ms millis
timeout_bounds_example = timeout_bounds 30000000 (pos 20) (pos 500000000) (millis (pos 20)) refl

paging_bound_example :
    IsBounded 3
      (search_with_paging_limit library network client 0 search_request 10 (pos 3) new_session)
paging_bound_example = paging_bound library network client 0 search_request 10 3 new_session

paging_ends_example :
    HasEnded
      (search_with_paging_limit library network client 0 search_request 10 (pos 3) new_session)
paging_ends_example =
    paging_ends library network client 0 search_request 10 3 new_session
      (λ log conn request. omega arith) (omega arith)

abbrev empty_page : SearchResult
empty_page = record { entries = []; referrals = []; controls = paging 10 (lit "c") ∷ [] }

empty_pages_spin_example :
    (search_pages library
      (record network { search = λ log conn request. found empty_page })
      client
      5
      0
      search_request
      10
      3
      []
      no_result
      new_session).0
    ≡ failed out_of_rounds
unfolding lit
empty_pages_spin_example =
    empty_pages_spin library (record network { search = λ log conn request. found empty_page })
      client empty_page _ _ (λ log conn request. refl) refl refl 5 0 search_request 10 3 new_session

bfs_group_facts-IsFair_example :
    IsFair
      (capacity (pos 5))
      (capacity (pos 2))
      (bfs_group_facts library network client 0 (lit "uid=bob") new_session).0
bfs_group_facts-IsFair_example =
    bfs_group_facts-IsFair library network client 0 (lit "uid=bob") new_session

abbrev asked : List Text
asked = lit "mail" ∷ lit "uid" ∷ lit "mail" ∷ []

requested_attributes_lem_example :
    IsDistinct (requested_attributes asked (lit "mail" ∷ lit "cn" ∷ []))
    × ((name : Text)
        → contains name (requested_attributes asked (lit "mail" ∷ lit "cn" ∷ []))
          ≡ (contains name asked && contains name (lit "mail" ∷ lit "cn" ∷ [])))
requested_attributes_lem_example = requested_attributes_lem asked (lit "mail" ∷ lit "cn" ∷ [])

bind_verdicts_example :
    let f = normalize_ldap_error config (ldap_error 49 (lit "data 533, v1")) in
    ((credential_verdict_from_bind_error f ≡ none) ↔ (◌≢◌ {A = ℕ} 49 49))
    × IsRefusal (credential_verdict_from_bind_error f)
    × (user_resolution_failure_result f ≡ none)
bind_verdicts_example = bind_verdicts config 49 (lit "data 533, v1")
