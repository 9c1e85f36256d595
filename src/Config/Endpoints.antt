-- ===== src/Config/Endpoints.antt =====
-- The LDAP endpoints, as internal/ports/config/config.go checks them.
use authrim_wordwarden.Prelude.{
  ℕ, suc, Bool, true, false, not, ◌&&◌, ◌||◌, List, [], ◌∷◌, ◌++◌, none, some, Text, lit, text_eq,
  ◌==◌, is_nil, contains, if◌then◌else◌, ltb,
}
use authrim_wordwarden.GoUrl.{Url, UrlParser}
use authrim_wordwarden.Config.{LdapConfig, ReferralConfig}
use authrim_wordwarden.Config.Problems.{problems_of, numbered}

-- The checks of the scheme and the host. `suffix` is where the texts of the two callers differ.
unfoldable pub located_problems : Bool → Text → Text → Url → List Text
located_problems start_tls suffix field url =
    if is_nil url.scheme
    then (field ++ lit " must include ldap:// or ldaps:// scheme") ∷ []
    else if is_nil url.host
    then (field ++ lit " must include host") ∷ []
    else if not (url.scheme == lit "ldap") && not (url.scheme == lit "ldaps")
    then (field ++ lit " must use ldap:// or ldaps://" ++ suffix) ∷ []
    else if start_tls
    then (if url.scheme == lit "ldap"
        then []
        else (field ++ lit " must use ldap:// when tls.start_tls is true") ∷ [])
    else if url.scheme == lit "ldaps"
    then []
    else (field ++ lit " must use ldaps:// unless tls.start_tls is true") ∷ []

unfoldable pub ldap_endpoint_urls : LdapConfig → List Text
ldap_endpoint_urls ldap = if is_nil ldap.url then ldap.urls else ldap.url ∷ ldap.urls

module _ (urls : UrlParser) where
  -- What one URL may have wrong behind its own checks in the loops.
  unfoldable pub endpoint_problems : Bool → Text → Text → Text → List Text
  endpoint_problems start_tls suffix field raw = elim (urls.parse raw) [
    | none ↦ (field ++ lit " must include ldap:// or ldaps:// scheme") ∷ []
    | some url ↦ located_problems start_tls suffix field url
  ]

  -- The field's name in the loop over the URLs.
  abbrev endpoint_field : Text → LdapConfig → ℕ → Text
  endpoint_field prefix ldap i =
      if ltb 0 i || not (is_nil ldap.urls)
      then numbered (prefix ++ lit ".urls") i
      else prefix ++ lit ".url"

  -- The loop over the URLs from index `i`, those before being `seen`.
  unfoldable pub endpoints_problems : Text → LdapConfig → ℕ → List Text → List Text → List Text
  endpoints_problems prefix ldap i seen [] = []
  endpoints_problems prefix ldap i seen (raw ∷ rest) =
      let field = endpoint_field prefix ldap i in
      elim (is_nil raw) [
        | true ↦
            (field ++ lit " must not be empty") ∷ endpoints_problems prefix ldap (suc i) seen rest
        | false ↦ elim (contains raw seen) [
          | true ↦
              (field ++ lit " must be unique") ∷ endpoints_problems prefix ldap (suc i) seen rest
          | false ↦
              endpoint_problems ldap.tls.start_tls (lit " scheme") field raw
              ++ endpoints_problems prefix ldap (suc i) (raw ∷ seen) rest
        ]
      ]

  unfoldable pub validate_ldap_urls : Text → LdapConfig → List Text
  validate_ldap_urls prefix ldap =
      if is_nil (ldap_endpoint_urls ldap)
      then (prefix ++ lit ".url or " ++ (prefix ++ lit ".urls is required")) ∷ []
      else endpoints_problems prefix ldap 0 [] (ldap_endpoint_urls ldap)

  -- The loop over the URLs that a referral may lead to.
  unfoldable pub allowed_urls_problems : Text → Bool → ℕ → List Text → List Text
  allowed_urls_problems prefix start_tls i [] = []
  allowed_urls_problems prefix start_tls i (raw ∷ rest) =
      endpoint_problems start_tls [] (numbered (prefix ++ lit ".allowed_urls") i) raw
      ++ allowed_urls_problems prefix start_tls (suc i) rest

  unfoldable pub validate_referrals : Text → ReferralConfig → Bool → List Text
  validate_referrals prefix referrals start_tls =
      if referrals.mode == lit "disabled"
      then problems_of (
          (
            not (is_nil referrals.allowed_urls),
            prefix ++ lit ".allowed_urls must be empty when mode is disabled",
          )
          ∷ (
            referrals.allow_service_bind_reuse,
            prefix ++ lit ".allow_service_bind_reuse must be false when mode is disabled",
          )
          ∷ [])
      else if referrals.mode == lit "allowlist"
      then problems_of (
          (
            is_nil referrals.allowed_urls,
            prefix ++ lit ".allowed_urls is required when mode is allowlist",
          )
          ∷ [])
        ++ allowed_urls_problems prefix start_tls 0 referrals.allowed_urls
      else (prefix ++ lit ".mode must be disabled or allowlist") ∷ []
