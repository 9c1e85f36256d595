-- ===== src/Relay/Address.antt =====
-- The URL of the relay, of internal/adapters/relay/client.go.
use authrim_wordwarden.Prelude.{
  ◌||◌, ◌&&◌, Bool, false, List, [], ◌∷◌, Option, none, some, Text, lit, text_eq, ◌==◌,
  if◌then◌else◌,
}
use authrim_wordwarden.GoText.Splitting.{split, join}
use authrim_wordwarden.GoUrl.{Url, UrlParser, is_local, drop_slashes, drop_slashes_right}

unfoldable pub relay_url_allowed : Url → Bool
relay_url_allowed url = url.scheme == lit "wss" || (url.scheme == lit "ws" && is_local url.hostname)

-- `none` is an error.
unfoldable pub parse_relay_url : UrlParser → Text → Option Url
parse_relay_url urls raw = elim (urls.parse raw) [
  | none ↦ none
  | some url ↦ if relay_url_allowed url then some url else none
]

-- Does an unescaped part say what is configured?
abbrev pub names_id : Option Text → Text → Bool
names_id none id = false
names_id (some unescaped) id = unescaped == id

-- The last six parts.
unfoldable pub last_six_bind : UrlParser → Text → Text → List Text → Bool
last_six_bind urls tenant_id connector_id (a ∷ b ∷ c ∷ d ∷ tenant ∷ connector ∷ []) =
    join (lit "/") (a ∷ b ∷ c ∷ d ∷ []) == lit "api/auth/directory-relay/connect"
    && names_id (urls.path_unescape tenant) tenant_id
    && names_id (urls.path_unescape connector) connector_id
last_six_bind urls tenant_id connector_id (part ∷ parts) =
    last_six_bind urls tenant_id connector_id parts
last_six_bind urls tenant_id connector_id [] = false

-- Is the URL one of this tenant and connector? It is false where the source gives an error.
unfoldable pub validate_relay_url_binding : UrlParser → Text → Text → Text → Bool
validate_relay_url_binding urls raw tenant_id connector_id = elim (parse_relay_url urls raw) [
  | none ↦ false
  | some url ↦
      last_six_bind urls tenant_id connector_id
        (split b'/' (drop_slashes_right (drop_slashes url.escaped_path)))
]
