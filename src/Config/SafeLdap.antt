-- ===== src/Config/SafeLdap.antt =====
-- The references and the directory in a configuration that internal/ports/config/config.go accepts.
use authrim_wordwarden.Prelude.{
  ◌≡◌, ◌⊎◌, refl, inl, inr, true, [], Text, lit, text_eq, text_iff, ◌==◌, arith, Bool-cases,
  IsFresh-IsDistinct,
}
use authrim_wordwarden.GoText.Encoding.{contains_text}
use authrim_wordwarden.Secrets.{
  Parsed, reference, empty_reference, invalid_reference, unsupported_scheme, parse_ref,
}
use authrim_wordwarden.Config.{LdapConfig}
use authrim_wordwarden.Config.Problems.{problems_of_nil, concat_nil}
use authrim_wordwarden.Config.Patterns.{Platform, reference_problems, validate_secret_ref}
use authrim_wordwarden.Config.LdapRules.{search_problems, lookup_problems, validate_ldap}
use authrim_wordwarden.Config.SafeDirectories.{
  validate_directory_profile-IsKnownProfile, validate_groups-IsBoundedGroups, pool_not_negative,
  username_formats_known,
}
use authrim_wordwarden.Config.SafeEndpoints.{
  validate_ldap_urls-IsSecure, validate_referrals-IsSecure,
}
use authrim_wordwarden.Config.SafeTenants.{IsReferenced, IsSafeLdap}

module _ (platform : Platform) where
  reference_problems-IsReferenced :
      (field raw : Text) (parsed : Parsed)
      → parse_ref raw ≡ parsed
      → reference_problems platform field raw parsed ≡ []
      → IsReferenced raw
  unfolding reference_problems
  reference_problems-IsReferenced field raw (reference r) e h = (r, e)
  reference_problems-IsReferenced field raw empty_reference e h = absurd (cc h)
  reference_problems-IsReferenced field raw invalid_reference e h = absurd (cc h)
  reference_problems-IsReferenced field raw unsupported_scheme e h = absurd (cc h)

  pub validate_secret_ref-IsReferenced :
      (field raw : Text) → validate_secret_ref platform field raw ≡ [] → IsReferenced raw
  unfolding validate_secret_ref
  validate_secret_ref-IsReferenced field raw h =
      reference_problems-IsReferenced field raw (parse_ref raw) refl h

  search_problems-filtered :
      (prefix when : Text) (l : LdapConfig)
      → search_problems platform prefix when l ≡ []
      → contains_text l.user_filter (lit "{username}") ≡ true
  unfolding search_problems
  search_problems-filtered prefix when l h =
      let (_, (tests, _)) = (concat_nil _).0 h in
      let (_, (_, (filled, (templated, _)))) = (problems_of_nil _).0 tests in ground arith

  lookup_problems-filtered :
      (prefix : Text) (l : LdapConfig)
      → lookup_problems platform prefix l ≡ []
      → (l.lookup_mode ≡ lit "dn_template")
        ⊎ (contains_text l.user_filter (lit "{username}") ≡ true)
  unfolding lookup_problems
  lookup_problems-filtered prefix l h =
      elim (Bool-cases (l.lookup_mode == lit "search_then_bind")) [
        | inl searched ↦
            inr (search_problems-filtered prefix _ l (rw (searched, lookup_problems) at h))
        | inr other ↦ elim (Bool-cases (l.lookup_mode == lit "dn_template")) [
          | inl template ↦ inl ((text_iff _ _).0 template)
          | inr no_template ↦ elim (Bool-cases (l.lookup_mode == lit "direct_bind")) [
            | inl direct ↦ inr (
                search_problems-filtered prefix _ l
                  (rw (other, no_template, direct, lookup_problems) at h))
            | inr unknown ↦ absurd (cc (rw (other, no_template, unknown, lookup_problems) at h))
          ]
        ]
      ]

  pub validate_ldap-IsSafeLdap :
      (prefix : Text) (l : LdapConfig)
      → validate_ldap platform prefix l ≡ []
      → IsSafeLdap platform l
  unfolding validate_ldap
  validate_ldap-IsSafeLdap prefix l h =
      let (
        located,
        (profile, (tls, (_, (referred, (groups, (pool, (lookups, (attributes, (users, _))))))))),
      ) =
        (concat_nil _).0 h in
      let (reachable, secure, fresh) = validate_ldap_urls-IsSecure platform.urls prefix l located in
      let (verified, _) = (problems_of_nil _).0 tls in
      let (selected, _) = (problems_of_nil _).0 attributes in
      record {
        verified = ground (arith, verified);
        reachable = reachable;
        endpoints = secure;
        distinct = (IsFresh-IsDistinct [] _ fresh).0;
        referrals =
            validate_referrals-IsSecure platform.urls _ l.referrals l.tls.start_tls referred;
        filtered = lookup_problems-filtered prefix l lookups;
        selected = selected;
        profile =
            validate_directory_profile-IsKnownProfile platform.unicode _ l.directory_profile
              profile;
        grouped = validate_groups-IsBoundedGroups _ l.groups groups;
        pooled = pool_not_negative _ l.pool pool;
        formats = username_formats_known _ l.username users;
      }
