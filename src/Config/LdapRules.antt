-- ===== src/Config/LdapRules.antt =====
-- What internal/ports/config/config.go checks of a tenant's directory.
use authrim_wordwarden.Prelude.{
  ℕ, suc, false, not, ◌&&◌, List, [], ◌∷◌, ◌++◌, Text, lit, text_eq, ◌==◌, is_nil, contains,
  if◌then◌else◌, ℤ, pos, le_int, lt_int,
}
use authrim_wordwarden.GoText.{Unicode, trim_space}
use authrim_wordwarden.GoText.Encoding.{contains_text}
use authrim_wordwarden.Username.{UsernameConfig}
use authrim_wordwarden.Config.{
  LdapConfig, DirectoryProfileConfig, PagedSearchConfig, GroupConfig, PoolConfig,
}
use authrim_wordwarden.Config.Problems.{problems_of, concat, numbered}
use authrim_wordwarden.Config.Patterns.{
  Platform, valid_ldap_attribute_description, validate_secret_ref, validate_optional_secret_ref,
  validate_file_ref,
}
use authrim_wordwarden.Config.Endpoints.{validate_ldap_urls, validate_referrals}

-- A number that must be positive and at most `most`; at most one text.
unfoldable pub limit_problems : Text → ℤ → ℤ → Text → Text → List Text
limit_problems field n most when most_text =
    if le_int n (pos 0)
    then (field ++ lit " must be positive when " ++ when) ∷ []
    else if lt_int most n
    then (field ++ lit " must be " ++ (most_text ++ lit " or less")) ∷ []
    else []

unfoldable pub paged_search_problems : Text → PagedSearchConfig → List Text
paged_search_problems prefix p =
    let when = lit "paged search is enabled" in
    if p.enabled
    then concat (
        limit_problems (prefix ++ lit ".page_size") p.page_size (pos 10000) when (lit "10000")
        ∷ limit_problems (prefix ++ lit ".max_entries") p.max_entries (pos 100000) when
            (lit "100000")
        ∷ limit_problems (prefix ++ lit ".timeout_ms") p.timeout_ms (pos 60000) when (lit "60000")
        ∷ [])
    else []

module _ (unicode : Unicode) where
  -- The body of the loop over the identifier attributes.
  unfoldable pub identifier_problems : Text → Text → List Text
  identifier_problems field attribute =
      if is_nil (trim_space unicode attribute)
      then (field ++ lit " must not be empty") ∷ []
      else if not (valid_ldap_attribute_description attribute)
      then (field ++ lit " must be a safe LDAP attribute description") ∷ []
      else []

  -- The loop from index `i`.
  unfoldable pub identifiers_problems : Text → ℕ → List Text → List Text
  identifiers_problems prefix i [] = []
  identifiers_problems prefix i (attribute ∷ rest) =
      identifier_problems (numbered (prefix ++ lit ".identifier_attributes") i) attribute
      ++ identifiers_problems prefix (suc i) rest

  unfoldable pub validate_directory_profile : Text → DirectoryProfileConfig → List Text
  validate_directory_profile prefix p = concat (
      problems_of (
        (
          not (contains p.name (lit "active_directory" ∷ lit "openldap" ∷ lit "generic" ∷ [])),
          prefix ++ lit ".name must be active_directory, openldap, or generic",
        )
        ∷ [])
      ∷ identifiers_problems prefix 0 p.identifier_attributes
      ∷ problems_of (
          (
            not (is_nil p.subject_attribute)
                && not (valid_ldap_attribute_description p.subject_attribute),
            prefix ++ lit ".subject_attribute must be a safe LDAP attribute description",
          )
          ∷ (
            not (
                contains p.group_strategy (
                  lit "member_attribute_only"
                  ∷ lit "ad_matching_rule"
                  ∷ lit "bfs_member_search"
                  ∷ [])),
            prefix
                ++ lit
                    ".group_strategy must be member_attribute_only, ad_matching_rule, or bfs_member_search",
          )
          ∷ (
            not (contains p.status_normalization (lit "generic" ∷ lit "active_directory" ∷ [])),
            prefix ++ lit ".status_normalization must be generic or active_directory",
          )
          ∷ [])
      ∷ paged_search_problems (prefix ++ lit ".paged_search") p.paged_search
      ∷ [])

unfoldable pub validate_pool : Text → PoolConfig → List Text
validate_pool prefix pool =
    problems_of
      ((lt_int pool.max_idle (pos 0), prefix ++ lit ".max_idle must be zero or positive") ∷ [])

unfoldable pub attribute_problems : Text → Text → List Text
attribute_problems field attribute =
    if is_nil attribute
    then (field ++ lit " is required when groups.enabled is true") ∷ []
    else if not (valid_ldap_attribute_description attribute)
    then (field ++ lit " must be a safe LDAP attribute description") ∷ []
    else []

unfoldable pub validate_groups : Text → GroupConfig → List Text
validate_groups prefix g =
    let when = lit "groups.enabled is true" in
    if not g.enabled
    then []
    else concat (
        attribute_problems (prefix ++ lit ".member_attribute") g.member_attribute
        ∷ attribute_problems (prefix ++ lit ".search_member_attribute") g.search_member_attribute
        ∷ attribute_problems (prefix ++ lit ".response_attribute") g.response_attribute
        ∷ attribute_problems (prefix ++ lit ".id_attribute") g.id_attribute
        ∷ attribute_problems (prefix ++ lit ".display_attribute") g.display_attribute
        ∷ limit_problems (prefix ++ lit ".max_depth") g.max_depth (pos 20) when (lit "20")
        ∷ limit_problems (prefix ++ lit ".max_groups") g.max_groups (pos 10000) when (lit "10000")
        ∷ limit_problems (prefix ++ lit ".timeout_ms") g.timeout_ms (pos 60000) when (lit "60000")
        ∷ [])

-- The loop over the formats.
unfoldable pub formats_problems : Text → List Text → List Text
formats_problems prefix [] = []
formats_problems prefix (format ∷ rest) =
    problems_of (
      (
        not (contains format (lit "local_part" ∷ lit "email" ∷ lit "upn" ∷ [])),
        prefix ++ lit ".allowed_formats contains unsupported format " ++ format,
      )
      ∷ [])
    ++ formats_problems prefix rest

unfoldable pub validate_username : Text → UsernameConfig → List Text
validate_username prefix u =
    formats_problems prefix u.allowed_formats
    ++ problems_of (
        (
          not (contains u.normalization.unicode_form ([] ∷ lit "NFKC" ∷ [])),
          prefix ++ lit ".normalization.unicode must be empty or NFKC",
        )
        ∷ (
          not (contains u.normalization.letter_case ([] ∷ lit "lower" ∷ [])),
          prefix ++ lit ".normalization.case must be empty or lower",
        )
        ∷ [])

module _ (platform : Platform) where
  -- The checks of the two modes that search; `when` ends the texts of the second.
  unfoldable pub search_problems : Text → Text → LdapConfig → List Text
  search_problems prefix when l = concat (
      validate_secret_ref platform (prefix ++ lit ".bind_password_ref") l.bind_password_ref
      ∷ problems_of (
          (is_nil l.bind_dn, prefix ++ lit ".bind_dn is required" ++ when)
          ∷ (is_nil l.base_dn, prefix ++ lit ".base_dn is required" ++ when)
          ∷ (is_nil l.user_filter, prefix ++ lit ".user_filter is required" ++ when)
          ∷ (
            not (is_nil l.user_filter) && not (contains_text l.user_filter (lit "{username}")),
            prefix ++ lit ".user_filter must contain {username}",
          )
          ∷ [])
      ∷ [])

  -- The switch on the lookup mode.
  unfoldable pub lookup_problems : Text → LdapConfig → List Text
  lookup_problems prefix l =
      if l.lookup_mode == lit "search_then_bind"
      then search_problems prefix [] l
      else if l.lookup_mode == lit "dn_template"
      then problems_of (
          (
            is_nil l.dn_template,
            prefix ++ lit ".dn_template is required when lookup_mode is dn_template",
          )
          ∷ [])
        ++ validate_optional_secret_ref platform (prefix ++ lit ".bind_password_ref")
            l.bind_password_ref
      else if l.lookup_mode == lit "direct_bind"
      then search_problems prefix (lit " when lookup_mode is direct_bind") l
      else (prefix ++ lit ".lookup_mode must be search_then_bind, dn_template, or direct_bind") ∷ []

  unfoldable pub validate_ldap : Text → LdapConfig → List Text
  validate_ldap prefix l = concat (
      validate_ldap_urls platform.urls prefix l
      ∷ validate_directory_profile platform.unicode (prefix ++ lit ".directory_profile")
          l.directory_profile
      ∷ problems_of ((not l.tls.verify, prefix ++ lit ".tls.verify must be true") ∷ [])
      ∷ validate_file_ref (prefix ++ lit ".tls.ca_file_ref") l.tls.ca_file_ref false
      ∷ validate_referrals platform.urls (prefix ++ lit ".referrals") l.referrals l.tls.start_tls
      ∷ validate_groups (prefix ++ lit ".groups") l.groups
      ∷ validate_pool (prefix ++ lit ".pool") l.pool
      ∷ lookup_problems prefix l
      ∷ problems_of (
          (is_nil l.attributes, prefix ++ lit ".attributes must contain at least one attribute")
          ∷ [])
      ∷ validate_username (prefix ++ lit ".username") l.username
      ∷ [])
