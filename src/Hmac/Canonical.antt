-- ===== src/Hmac/Canonical.antt =====
-- The canonical text of a request and its signature, of internal/adapters/hmac/verifier.go. The
-- hash functions of crypto/sha256 and crypto/hmac are parameters.
use authrim_wordwarden.Prelude.{
  Bool, not, ◌||◌, List, [], ◌∷◌, ◌++◌, map, Text, lit, text_eq, is_nil, lookup, none, some,
}
use authrim_wordwarden.GoText.{Unicode, fields, contains_byte}
use authrim_wordwarden.GoText.Splitting.{join}
use authrim_wordwarden.GoText.Sorting.{sort_texts}
use authrim_wordwarden.GoText.Escaping.{query_escape, hex}
use authrim_wordwarden.Hmac.Request.{
  Request, Result, ok, ◌>>=◌, ◌>>◌, require, missing_header, malformed_signed_field,
}
use authrim_wordwarden.Hmac.Headers.{single_header_value}

-- `hmac_sha256 secret message`
pub record Crypto : Type 0 where
  pub sha256 : Text → Text
  pub hmac_sha256 : Text → Text → Text

abbrev pub algorithm : Text
algorithm = lit "AUTHRIM-HMAC-SHA256"

abbrev pub newline : Text
newline = b'\n' ∷ []

-- The parts `key=value` of one key, its values sorted.
unfoldable pub query_parts : Text → List Text → List Text
query_parts key [] = []
query_parts key (value ∷ values) =
    (query_escape key ++ (lit "=" ++ query_escape value)) ∷ query_parts key values

unfoldable pub query_part_lists : List (Text × List Text) → List Text → List Text
unfolding query_parts
query_part_lists values [] = []
query_part_lists values (key ∷ keys) =
    let vals : List Text = elim (lookup key values) [ none ↦ [] | some found ↦ found ] in
    query_parts key (sort_texts vals) ++ query_part_lists values keys

-- `url.Values` is a map: each key stands once in `values`.
unfoldable pub canonical_query : List (Text × List Text) → Text
unfolding query_part_lists
canonical_query values =
    join (lit "&") (query_part_lists values (sort_texts (map (λ entry. entry.0) values)))

module _ (u : Unicode) where
  unfoldable pub normalize_header_value : Text → Text
  normalize_header_value value = join (lit " ") (fields u value)

  -- `strings.ContainsAny(name, ":\r\n")`
  abbrev pub is_malformed_name : Text → Bool
  is_malformed_name name =
      contains_byte b':' name || contains_byte b'\r' name || contains_byte b'\n' name

  -- One round of the loop.
  unfoldable pub header_line : Request → Text → Result Text
  unfolding normalize_header_value
  header_line req name = do
    require (not (is_malformed_name name)) malformed_signed_field
    value ← single_header_value req name
    require (not (is_nil value)) missing_header
    let normalized = normalize_header_value value
    require (not (is_nil normalized)) missing_header
    ok (name ++ (lit ":" ++ normalized))

  unfoldable pub header_lines : Request → List Text → Result (List Text)
  header_lines req [] = ok []
  header_lines req (name ∷ names) = do
    line ← header_line req name
    lines ← header_lines req names
    ok (line ∷ lines)

  unfoldable pub canonical_headers : Request → List Text → Result Text
  canonical_headers req signed_headers = do
    lines ← header_lines req signed_headers
    ok (join newline lines)

module _ (u : Unicode) (c : Crypto) where
  unfoldable pub canonical_request : Request → Text → List Text → Text → Text → Result Text
  unfolding canonical_headers
  canonical_request req body signed_headers timestamp nonce = do
    headers ← canonical_headers u req signed_headers
    ok (
        join newline (
          algorithm
          ∷ timestamp
          ∷ nonce
          ∷ req.method
          ∷ req.escaped_path
          ∷ canonical_query req.query
          ∷ headers
          ∷ join (lit ";") signed_headers
          ∷ hex (c.sha256 body)
          ∷ []))

unfoldable pub sign_canonical : Crypto → Text → Text → Text
sign_canonical c canonical secret = hex (c.hmac_sha256 secret canonical)
