-- ===== src/Tests/Commands.antt =====
-- The theorems on configurations, commands, heartbeats and identities, at concrete inputs.
use authrim_wordwarden.Prelude.{
  ◌↔◌, ◌⊎◌, negsuc, ◌≡◌, refl, false, List, [], ◌∷◌, map, some, Text, lit, pos, All, IsDistinct,
  text_beq, contains, length, keep_if, insert, arith,
}
use authrim_wordwarden.GoText.{is_ascii, is_space, drop_spaces, drop_spaces_right, trim_space, cut}
use authrim_wordwarden.GoText.Encoding.{
  has_prefix, drop_bytes, trim_prefix, contains_text, base64_raw_url,
}
use authrim_wordwarden.GoText.Splitting.{split, join}
use authrim_wordwarden.GoUrl.{is_local, drop_slashes, drop_slashes_right, path_parts}
use authrim_wordwarden.Secrets.{parse_parts, parse_ref}
use authrim_wordwarden.Config.{Config}
use authrim_wordwarden.Config.Defaults.{
  or_text, or_texts, or_number, profile_by_name, apply_directory_profile_defaults,
  paged_search_defaults, group_defaults, ldap_defaults, timeout_defaults, authrim_defaults,
  protection_defaults, tenant_defaults, tenants_defaults, apply_defaults,
}
use authrim_wordwarden.Config.Problems.{digits, decimal, numbered, problems_of, concat}
use authrim_wordwarden.Config.Patterns.{
  is_letter, is_alphanumeric, connector_id_matches, is_description_byte,
  valid_ldap_attribute_description, reference_problems, validate_secret_ref,
  validate_optional_secret_ref, validate_file_ref,
}
use authrim_wordwarden.Config.Routes.{
  scheme_problems, last_six, segment_problems, parts_problems, route_problems, parse_with_host,
  reconnect_problems, validate_relay, previous_problems, validate_heartbeat,
}
use authrim_wordwarden.Config.Endpoints.{
  located_problems, ldap_endpoint_urls, endpoint_problems, endpoints_problems, validate_ldap_urls,
  validate_referrals,
}
use authrim_wordwarden.Config.LdapRules.{
  identifier_problems, identifiers_problems, paged_search_problems, validate_directory_profile,
  validate_pool, validate_groups, formats_problems, validate_username, search_problems,
  lookup_problems, validate_ldap,
}
use authrim_wordwarden.Config.Validation.{
  validate_protection, validate_timeouts, identity_problems, deployment_problems,
  server_tls_problems, keys_problems, tenant_problems, tenants_problems, validate,
}
use authrim_wordwarden.Config.SafeTenants.{IsSafeTenant, tenant_ids, connector_ids}
use authrim_wordwarden.Config.Accepted.{validate-IsSafeTenant}
use authrim_wordwarden.Config.Loading.{settle, parse, load_file}
use authrim_wordwarden.Secrets.Resolving.{
  resolve_secret, resolve_parsed, resolve_secret_bytes, resolve_optional_secret_bytes,
}
use authrim_wordwarden.Commands.{
  Runtime, runtime_of, previous_key, tenant_runtime, build_runtimes, build_tenant_runtimes,
  start_heartbeat_clients,
}
use authrim_wordwarden.Commands.Runtimes.{Serves, build_tenant_runtimes-Serves}
use authrim_wordwarden.Commands.Serve.{Started, program_version, prepare}
use authrim_wordwarden.Commands.Prepared.{prepare_total}
use authrim_wordwarden.Http.State.{new_handler}
use authrim_wordwarden.Instance.{generate_instance_id, store, on_read, load_or_create_instance_id}
use authrim_wordwarden.Commands.Doctor.{build_doctor_report}
use authrim_wordwarden.Commands.Ready.{build_doctor_report_passes}
use authrim_wordwarden.Commands.Diagnostics.{build_diagnostic_bundle}
use authrim_wordwarden.Commands.Redaction.{redact, build_diagnostic_bundle_redacted}
use authrim_wordwarden.Commands.Versions.{VersionTools, core_of, version_parts, compare_versions}
use authrim_wordwarden.Commands.Parts.{reversed, IsAtMost}
use authrim_wordwarden.Commands.Older.{IsOlder}
use authrim_wordwarden.Commands.Order.{compare_versions_order}
use authrim_wordwarden.Tests.Names.{unicode}
use authrim_wordwarden.Tests.Samples.{urls, platform, host, tenant, sample, machine, id, kept}

abbrev settled : Config
settled = apply_defaults sample

settled_valid : validate platform settled ≡ []
unfolding is_ascii is_space drop_spaces drop_spaces_right trim_space cut has_prefix drop_bytes
    trim_prefix contains_text split join is_local drop_slashes drop_slashes_right path_parts
    parse_parts parse_ref or_text or_texts or_number profile_by_name
    apply_directory_profile_defaults paged_search_defaults group_defaults ldap_defaults
    timeout_defaults authrim_defaults protection_defaults tenant_defaults tenants_defaults
    apply_defaults digits decimal numbered problems_of concat is_letter is_alphanumeric
    connector_id_matches is_description_byte valid_ldap_attribute_description reference_problems
    validate_secret_ref validate_optional_secret_ref validate_file_ref scheme_problems last_six
    segment_problems parts_problems route_problems parse_with_host reconnect_problems validate_relay
    previous_problems validate_heartbeat located_problems ldap_endpoint_urls endpoint_problems
    endpoints_problems validate_ldap_urls validate_referrals identifier_problems
    identifiers_problems paged_search_problems validate_directory_profile validate_pool
    validate_groups formats_problems validate_username search_problems lookup_problems validate_ldap
    validate_protection validate_timeouts identity_problems deployment_problems server_tls_problems
    keys_problems tenant_problems tenants_problems validate lit text_beq contains
settled_valid = refl

settled_loaded : load_file platform (λ bytes. some sample) host (lit "config.yaml") ≡ some settled
unfolding load_file parse settle
settled_loaded = rw settled_valid refl

validate-IsSafeTenant_example :
    All (IsSafeTenant platform) settled.tenants
    × IsDistinct (tenant_ids settled.tenants)
    × IsDistinct (connector_ids settled.tenants)
validate-IsSafeTenant_example = validate-IsSafeTenant platform settled settled_valid

abbrev runtimes : List (Text × Runtime)
runtimes =
    (
      lit "wwcon_ABCDEFGHIJKLMNOP",
      runtime_of (tenant_defaults tenant) (lit "s3cret")
          (some (record { kid = lit "old"; secret = lit "file" })) (lit "file") (lit "s3cret"),
    )
    ∷ []

runtimes_built : build_tenant_runtimes host settled ≡ some runtimes
unfolding build_tenant_runtimes build_runtimes tenant_runtime previous_key resolve_secret_bytes
    resolve_optional_secret_bytes resolve_parsed resolve_secret parse_ref parse_parts cut insert
    apply_defaults tenants_defaults tenant_defaults ldap_defaults lit text_beq authrim_defaults
runtimes_built = refl

build_tenant_runtimes-Serves_example : All (Serves host runtimes) settled.tenants
build_tenant_runtimes-Serves_example =
    build_tenant_runtimes-Serves platform host settled runtimes settled_valid runtimes_built

prepare_total_example :
    (started : Started) × (prepare machine (lit "config.yaml") ≡ some started)
    × (started.handler
        ≡ new_handler program_version
            (map (λ e. (e.0, e.1.0)) runtimes)
            settled.server.expose_operations)
    × (length started.relays ≡ length (keep_if (λ t. t.authrim.relay.enabled) settled.tenants))
    × (started.heartbeats ≡ [])
unfolding load_or_create_instance_id on_read store generate_instance_id base64_raw_url trim_space
    drop_spaces drop_spaces_right is_space is_ascii lit start_heartbeat_clients apply_defaults
    tenants_defaults tenant_defaults authrim_defaults resolve_secret_bytes resolve_parsed
    resolve_secret parse_ref parse_parts cut text_beq or_text
prepare_total_example =
    prepare_total machine (lit "config.yaml") settled runtimes id kept [] settled_loaded
      runtimes_built (omega arith) refl ((lit "s3cret", refl, refl), tt) refl

build_doctor_report_passes_example :
    ((build_doctor_report settled).has_failures ≡ false)
    × (contains (lit "fail") (map (λ c. c.status) (build_doctor_report settled).checks) ≡ false)
build_doctor_report_passes_example =
    build_doctor_report_passes platform (λ bytes. some sample) host (lit "config.yaml") settled
      settled_loaded

build_diagnostic_bundle_redacted_example :
    build_diagnostic_bundle urls (lit "1") (record settled { tenants = map redact settled.tenants })
    ≡ build_diagnostic_bundle urls (lit "1") settled
build_diagnostic_bundle_redacted_example = build_diagnostic_bundle_redacted urls (lit "1") settled

abbrev tools : VersionTools
tools = record { unicode = unicode; wide_scan = λ s. pos 0 }

compare_versions_order_example :
    ((compare_versions tools (lit "1.2") (lit "1.10-beta") ≡ negsuc 0)
      ↔ IsOlder (version_parts tools (lit "1.2")) (version_parts tools (lit "1.10-beta")))
    × ((compare_versions tools (lit "1.2") (lit "1.10-beta") ≡ negsuc 0)
        ⊎ (compare_versions tools (lit "1.2") (lit "1.10-beta") ≡ pos 0)
        ⊎ (compare_versions tools (lit "1.2") (lit "1.10-beta") ≡ pos 1))
    × (compare_versions tools (lit "1.10-beta") (lit "1.2")
        ≡ reversed (compare_versions tools (lit "1.2") (lit "1.10-beta")))
    × (compare_versions tools (lit "1.2") (lit "1.2") ≡ pos 0)
    × ((compare_versions tools (lit "1.2") (lit "1.10-beta") ≡ pos 1)
        ⊎ (compare_versions tools (lit "1.10-beta") (lit "1.9") ≡ pos 1)
        ⊎ IsAtMost (compare_versions tools (lit "1.2") (lit "1.9")))
    × (compare_versions tools (core_of (lit "1.2")) (lit "1.10-beta")
        ≡ compare_versions tools (lit "1.2") (lit "1.10-beta"))
compare_versions_order_example =
    compare_versions_order tools (lit "1.2") (lit "1.10-beta") (lit "1.9")
