-- ===== src/Config/Routes.antt =====
-- The URLs of the heartbeat and of the relay, as internal/ports/config/config.go checks them.
use authrim_wordwarden.Prelude.{
  Bool, not, ◌||◌, List, [], ◌∷◌, ◌++◌, Option, none, some, Text, lit, text_eq, ◌==◌, is_nil,
  if◌then◌else◌, ℤ, pos, le_int, lt_int,
}
use authrim_wordwarden.GoUrl.{Url, UrlParser, is_local, path_parts}
use authrim_wordwarden.GoText.Splitting.{join}
use authrim_wordwarden.Config.{RelayConfig, HeartbeatConfig, HmacKeyConfig}
use authrim_wordwarden.Config.Problems.{problems_of, concat}
use authrim_wordwarden.Config.Patterns.{Platform, validate_secret_ref}

-- The switch on the scheme.
unfoldable pub scheme_problems : Text → Text → Text → Url → List Text
scheme_problems field secure plain url =
    let text =
      field
      ++ lit " must use "
      ++ (secure ++ lit ":// except " ++ (plain ++ lit "://localhost for local development")) in
    if url.scheme == secure
    then []
    else if url.scheme == plain
    then (if is_local url.hostname then [] else text ∷ [])
    else text ∷ []

-- The last six parts of a path: four joined, the tenant and the connector. `none` if there are
-- fewer.
unfoldable pub last_six : List Text → Option (Text × (Text × Text))
last_six (a ∷ b ∷ c ∷ d ∷ tenant ∷ connector ∷ []) =
    some (join (lit "/") (a ∷ b ∷ c ∷ d ∷ []), (tenant, connector))
last_six (part ∷ parts) = last_six parts
last_six [] = none

-- A part that is unescaped, `none` if that fails, against what is configured.
unfoldable pub segment_problems : Text → Text → Option Text → Text → List Text
segment_problems field label none id =
    (field ++ lit " " ++ (label ++ lit " path segment is invalid")) ∷ []
segment_problems field label (some raw) id =
    if raw == id then [] else (field ++ lit " " ++ (label ++ lit " must match " ++ label)) ∷ []

unfoldable pub reconnect_problems : Text → RelayConfig → List Text
reconnect_problems prefix relay = problems_of (
    (le_int relay.reconnect_min_ms (pos 0), prefix ++ lit ".reconnect_min_ms must be positive")
    ∷ (le_int relay.reconnect_max_ms (pos 0), prefix ++ lit ".reconnect_max_ms must be positive")
    ∷ (
      lt_int relay.reconnect_max_ms relay.reconnect_min_ms,
      prefix ++ lit ".reconnect_min_ms must be less than or equal to reconnect_max_ms",
    )
    ∷ [])

module _ (urls : UrlParser) where
  -- Behind the search for the last six parts.
  unfoldable pub parts_problems :
      Text → Text → Text → Text → Option (Text × (Text × Text)) → List Text
  parts_problems field route tenant_id connector_id none =
      (field ++ lit " must include /" ++ (route ++ lit "/{tenant_id}/{connector_id}")) ∷ []
  parts_problems field route tenant_id connector_id (some (found, (tenant, connector))) =
      if found == route
      then concat (
          segment_problems field (lit "tenant_id") (urls.path_unescape tenant) tenant_id
          ∷ segment_problems field (lit "connector_id") (urls.path_unescape connector) connector_id
          ∷ [])
      else (field ++ lit " must include /" ++ (route ++ lit "/{tenant_id}/{connector_id}")) ∷ []

  unfoldable pub route_problems : Text → Text → Text → Text → Url → List Text
  route_problems field route tenant_id connector_id url =
      parts_problems field route tenant_id connector_id (last_six (path_parts url))

  -- `url.Parse`, where a URL without a host counts as an error.
  unfoldable pub parse_with_host : Text → Option Url
  parse_with_host raw = elim (urls.parse raw) [
    | none ↦ none
    | some url ↦ if is_nil url.host then none else some url
  ]

  unfoldable pub validate_heartbeat_url : Text → Text → Text → Text → List Text
  validate_heartbeat_url field raw tenant_id connector_id = elim (parse_with_host raw) [
    | none ↦ (field ++ lit " must be a valid URL") ∷ []
    | some url ↦ concat (
        scheme_problems field (lit "https") (lit "http") url
        ∷ route_problems field (lit "api/auth/directory-connectors/heartbeat") tenant_id
            connector_id url
        ∷ [])
  ]

  unfoldable pub validate_relay : Text → RelayConfig → Text → Text → List Text
  validate_relay prefix relay tenant_id connector_id =
      if not relay.enabled
      then []
      else if is_nil relay.url
      then (prefix ++ lit ".url is required when relay is enabled") ∷ []
      else elim (parse_with_host relay.url) [
        | none ↦ (prefix ++ lit ".url must be a valid URL") ∷ []
        | some url ↦ concat (
            scheme_problems (prefix ++ lit ".url") (lit "wss") (lit "ws") url
            ∷ route_problems (prefix ++ lit ".url") (lit "api/auth/directory-relay/connect")
                tenant_id connector_id url
            ∷ reconnect_problems prefix relay
            ∷ [])
      ]

-- Is a number outside what is permitted?
abbrev pub outside : ℤ → ℤ → ℤ → Bool
outside low high n = lt_int n low || lt_int high n

module _ (platform : Platform) where
  -- The key that may be configured beside the active one.
  unfoldable pub previous_problems : Text → Option HmacKeyConfig → List Text
  previous_problems prefix none = []
  previous_problems prefix (some key) = concat (
      problems_of ((is_nil key.kid, prefix ++ lit ".kid is required") ∷ [])
      ∷ validate_secret_ref platform (prefix ++ lit ".secret_ref") key.secret_ref
      ∷ [])

  unfoldable pub enabled_heartbeat_problems : Text → HeartbeatConfig → Text → Text → List Text
  enabled_heartbeat_problems prefix heartbeat tenant_id connector_id = concat (
      (if is_nil heartbeat.url
        then (prefix ++ lit ".url is required when heartbeat is enabled") ∷ []
        else validate_heartbeat_url platform.urls (prefix ++ lit ".url") heartbeat.url tenant_id
            connector_id)
      ∷ problems_of (
          (is_nil heartbeat.key.kid, prefix ++ lit ".key.kid is required when heartbeat is enabled")
          ∷ [])
      ∷ validate_secret_ref platform (prefix ++ lit ".key.secret_ref") heartbeat.key.secret_ref
      ∷ previous_problems (prefix ++ lit ".previous") heartbeat.previous
      ∷ problems_of (
          (
            outside (pos 30000) (pos 86400000) heartbeat.interval_ms,
            prefix ++ lit ".interval_ms must be between 30000 and 86400000",
          )
          ∷ (
            outside (pos 100) (pos 30000) heartbeat.timeout_ms,
            prefix ++ lit ".timeout_ms must be between 100 and 30000",
          )
          ∷ [])
      ∷ [])

  unfoldable pub validate_heartbeat : Text → HeartbeatConfig → Text → Text → List Text
  validate_heartbeat prefix heartbeat tenant_id connector_id =
      let transport = heartbeat.transport in
      concat (
        problems_of (
          (
            not (
                transport == lit "direct"
                || (transport == lit "tunnel" || transport == lit "relay")),
            prefix ++ lit ".transport must be direct, tunnel, or relay",
          )
          ∷ [])
        ∷ (if heartbeat.enabled
            then enabled_heartbeat_problems prefix heartbeat tenant_id connector_id
            else [])
        ∷ [])
