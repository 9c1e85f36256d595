-- ===== src/Config/SafeEndpoints.antt =====
-- What internal/ports/config/config.go permits of LDAP endpoints.
use authrim_wordwarden.Prelude.{
  ℕ, suc, ◌≡◌, inl, inr, Bool, false, List, [], ◌∷◌, some, Text, lit, text_eq, text_iff, ◌==◌,
  is_nil, contains, if◌then◌else◌, All, All-nil, IsFresh, arith, Bool-cases, Option-cases,
}
use authrim_wordwarden.GoUrl.{Url, UrlParser}
use authrim_wordwarden.Config.{LdapConfig, ReferralConfig}
use authrim_wordwarden.Config.Problems.{append_nil_parts, problems_of_nil}
use authrim_wordwarden.Config.Endpoints.{
  located_problems, ldap_endpoint_urls, endpoint_problems, endpoints_problems, validate_ldap_urls,
  allowed_urls_problems, validate_referrals,
}

-- The scheme that the TLS settings ask for.
abbrev pub secure_scheme : Bool → Text
secure_scheme start_tls = if start_tls then lit "ldap" else lit "ldaps"

-- Is a URL one that is reached through TLS?
pub record IsSecure (urls : UrlParser) (start_tls : Bool) (raw : Text) : Type 0 where
  pub url : Url
  pub parsed : urls.parse raw ≡ some url
  pub hosted : is_nil url.host ≡ false
  pub scheme_is : url.scheme ≡ secure_scheme start_tls

located_problems_secure :
    (start_tls : Bool) (suffix field : Text) (url : Url)
    → located_problems start_tls suffix field url ≡ []
    → (is_nil url.host ≡ false) × (url.scheme ≡ secure_scheme start_tls)
unfolding located_problems
located_problems_secure start_tls suffix field url h =
    ground (arith, text_iff url.scheme (lit "ldap"), text_iff url.scheme (lit "ldaps"))

module _ (urls : UrlParser) where
  endpoint_problems-IsSecure :
      (start_tls : Bool) (suffix field raw : Text)
      → endpoint_problems urls start_tls suffix field raw ≡ []
      → IsSecure urls start_tls raw
  unfolding endpoint_problems
  endpoint_problems-IsSecure start_tls suffix field raw h = elim (Option-cases (urls.parse raw)) [
    | inl bad ↦ absurd (cc (rw (bad, endpoint_problems) at h))
    | inr (url, good) ↦
        let (hosted, scheme_is) =
          located_problems_secure start_tls suffix field url (rw (good, endpoint_problems) at h) in
        record { url = url; parsed = good; hosted = hosted; scheme_is = scheme_is }
  ]

  endpoints_problems-IsSecure :
      (prefix : Text) (ldap : LdapConfig) (i : ℕ) (seen list : List Text)
      → endpoints_problems urls prefix ldap i seen list ≡ []
      → All (IsSecure urls ldap.tls.start_tls) list × IsFresh seen list
  unfolding endpoints_problems
  endpoints_problems-IsSecure prefix ldap i seen [] h = (tt, tt)
  endpoints_problems-IsSecure prefix ldap i seen (raw ∷ rest) h = elim (Bool-cases (is_nil raw)) [
    | inl empty ↦ absurd (cc (rw (empty, endpoints_problems) at h))
    | inr filled ↦ elim (Bool-cases (contains raw seen)) [
      | inl old ↦ absurd (cc (rw (filled, old, endpoints_problems) at h))
      | inr new ↦
          let (one, others) = append_nil_parts _ _ (rw (filled, new, endpoints_problems) at h) in
          let (secure, fresh) =
            endpoints_problems-IsSecure prefix ldap (suc i) (raw ∷ seen) rest others in
          ((endpoint_problems-IsSecure _ _ _ raw one, secure), (new, fresh))
    ]
  ]

  pub validate_ldap_urls-IsSecure :
      (prefix : Text) (ldap : LdapConfig)
      → validate_ldap_urls urls prefix ldap ≡ []
      → (is_nil (ldap_endpoint_urls ldap) ≡ false)
        × All (IsSecure urls ldap.tls.start_tls) (ldap_endpoint_urls ldap)
        × IsFresh [] (ldap_endpoint_urls ldap)
  unfolding validate_ldap_urls
  validate_ldap_urls-IsSecure prefix ldap h = elim (Bool-cases (is_nil (ldap_endpoint_urls ldap))) [
    | inl empty ↦ absurd (cc (rw (empty, validate_ldap_urls) at h))
    | inr filled ↦
        let (secure, fresh) =
          endpoints_problems-IsSecure prefix ldap 0 [] _ (rw (filled, validate_ldap_urls) at h) in
        (filled, secure, fresh)
  ]

  allowed_urls_problems-IsSecure :
      (prefix : Text) (start_tls : Bool) (i : ℕ) (list : List Text)
      → allowed_urls_problems urls prefix start_tls i list ≡ []
      → All (IsSecure urls start_tls) list
  unfolding allowed_urls_problems
  allowed_urls_problems-IsSecure prefix start_tls i [] h = tt
  allowed_urls_problems-IsSecure prefix start_tls i (raw ∷ rest) h =
      let (one, others) = append_nil_parts _ _ h in
      (
        endpoint_problems-IsSecure start_tls _ _ raw one,
        allowed_urls_problems-IsSecure prefix start_tls (suc i) rest others,
      )

  -- Referrals lead nowhere when they are disabled.
  pub validate_referrals-IsSecure :
      (prefix : Text) (referrals : ReferralConfig) (start_tls : Bool)
      → validate_referrals urls prefix referrals start_tls ≡ []
      → All (IsSecure urls start_tls) referrals.allowed_urls
  unfolding validate_referrals
  validate_referrals-IsSecure prefix referrals start_tls h =
      elim (Bool-cases (referrals.mode == lit "disabled")) [
        | inl disabled ↦
            let (none_allowed, _) =
              (problems_of_nil _).0 (rw (disabled, validate_referrals) at h) in
            All-nil _ _ (ground (arith, none_allowed))
        | inr enabled ↦ elim (Bool-cases (referrals.mode == lit "allowlist")) [
          | inl allowlist ↦
              allowed_urls_problems-IsSecure prefix start_tls 0 _
                (append_nil_parts _ _ (rw (enabled, allowlist, validate_referrals) at h)).1
          | inr unknown ↦ absurd (cc (rw (enabled, unknown, validate_referrals) at h))
        ]
      ]
