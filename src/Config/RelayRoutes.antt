-- ===== src/Config/RelayRoutes.antt =====
-- The relay's URL of a configuration that internal/ports/config/config.go accepts, and the check of
-- internal/adapters/relay/client.go.
use authrim_wordwarden.Prelude.{
  ◌≡◌, ◌⊎◌, refl, ◌∙◌, inl, inr, Bool, true, false, ◌&&◌, List, [], ◌∷◌, Option, none, some, Text,
  lit, text_eq, ◌==◌, is_nil, arith, Bool-cases, Option-cases,
}
use authrim_wordwarden.GoUrl.{Url, UrlParser, path_parts}
use authrim_wordwarden.Relay.Address.{
  relay_url_allowed, parse_relay_url, names_id, last_six_bind, validate_relay_url_binding,
}
use authrim_wordwarden.Config.{RelayConfig}
use authrim_wordwarden.Config.Problems.{concat_nil}
use authrim_wordwarden.Config.Routes.{
  scheme_problems, last_six, segment_problems, parts_problems, route_problems, parse_with_host,
  validate_relay,
}

module _ (urls : UrlParser) (tenant_id connector_id : Text) where
  abbrev binds : Option (Text × (Text × Text)) → Bool
  binds none = false
  binds (some (route, (tenant, connector))) =
      route == lit "api/auth/directory-relay/connect"
      && names_id (urls.path_unescape tenant) tenant_id
      && names_id (urls.path_unescape connector) connector_id

  binds-last_six :
      (parts : List Text) → last_six_bind urls tenant_id connector_id parts ≡ binds (last_six parts)
  unfolding last_six_bind last_six
  binds-last_six [] = refl
  binds-last_six (a ∷ []) = refl
  binds-last_six (a ∷ b ∷ []) = refl
  binds-last_six (a ∷ b ∷ c ∷ []) = refl
  binds-last_six (a ∷ b ∷ c ∷ d ∷ []) = refl
  binds-last_six (a ∷ b ∷ c ∷ d ∷ e ∷ []) = refl
  binds-last_six (a ∷ b ∷ c ∷ d ∷ e ∷ f ∷ []) = refl
  binds-last_six (a ∷ b ∷ c ∷ d ∷ e ∷ f ∷ g ∷ rest) = binds-last_six (b ∷ c ∷ d ∷ e ∷ f ∷ g ∷ rest)

  segment_problems-names_id :
      (field label id : Text) (unescaped : Option Text)
      → segment_problems field label unescaped id ≡ []
      → names_id unescaped id ≡ true
  unfolding segment_problems
  segment_problems-names_id field label id none h = absurd (cc h)
  segment_problems-names_id field label id (some raw) h = ground arith

  parts_problems-binds :
      (field : Text) (found : Option (Text × (Text × Text)))
      → parts_problems urls field
          (lit "api/auth/directory-relay/connect")
          tenant_id
          connector_id
          found
        ≡ []
      → binds found ≡ true
  unfolding parts_problems
  parts_problems-binds field none h = absurd (cc h)
  parts_problems-binds field (some (found, (tenant, connector))) h =
      elim (Bool-cases (found == lit "api/auth/directory-relay/connect")) [
        | inr other ↦ absurd (cc (rw (other, parts_problems) at h))
        | inl same ↦
            let (one, (other, _)) = (concat_nil _).0 (rw (same, parts_problems) at h) in
            ground (
              arith,
              same,
              segment_problems-names_id field (lit "tenant_id") tenant_id
                  (urls.path_unescape tenant) one,
              segment_problems-names_id field (lit "connector_id") connector_id
                  (urls.path_unescape connector) other,
            )
      ]

  scheme_problems-allowed :
      (field : Text) (url : Url)
      → scheme_problems field (lit "wss") (lit "ws") url ≡ []
      → relay_url_allowed url ≡ true
  unfolding scheme_problems relay_url_allowed
  scheme_problems-allowed field url h = ground arith

  parse_with_host-parse :
      (raw : Text) (url : Url) → parse_with_host urls raw ≡ some url → urls.parse raw ≡ some url
  unfolding parse_with_host
  parse_with_host-parse raw url h = ground arith

  -- A relay that is enabled and in order has a URL that the client takes for the tenant's own.
  pub validate_relay-binding :
      (prefix : Text) (relay : RelayConfig)
      → validate_relay urls prefix relay tenant_id connector_id ≡ []
      → (relay.enabled ≡ false)
        ⊎ ((is_nil relay.url ≡ false)
            × (validate_relay_url_binding urls relay.url tenant_id connector_id ≡ true))
  unfolding validate_relay validate_relay_url_binding parse_relay_url route_problems path_parts
  validate_relay-binding prefix relay h = elim (Bool-cases relay.enabled) [
    | inr off ↦ inl off
    | inl on ↦ elim (Bool-cases (is_nil relay.url)) [
      | inl empty ↦ absurd (cc (rw (on, empty, validate_relay) at h))
      | inr filled ↦ elim (Option-cases (parse_with_host urls relay.url)) [
        | inl bad ↦ absurd (cc (rw (on, filled, bad, validate_relay) at h))
        | inr (url, good) ↦
            let (schemed, (routed, _)) =
              (concat_nil _).0 (rw (on, filled, good, validate_relay) at h) in
            inr (
              filled,
              rw
                  (
                    parse_with_host-parse relay.url url good,
                    scheme_problems-allowed _ url schemed,
                    validate_relay_url_binding,
                  )
                  (binds-last_six (path_parts url) ∙ parts_problems-binds _ _ routed),
            )
      ]
    ]
  ]
