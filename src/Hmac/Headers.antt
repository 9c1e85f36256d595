-- ===== src/Hmac/Headers.antt =====
-- The headers that a signed request must carry, of internal/adapters/hmac/verifier.go.
use authrim_wordwarden.Prelude.{
  Bool, not, ◌||◌, List, [], ◌∷◌, ◌++◌, Text, lit, text_eq, is_nil, all, contains, if◌then◌else◌,
}
use authrim_wordwarden.GoText.{Unicode, to_lower, trim_space}
use authrim_wordwarden.GoText.Splitting.{split}
use authrim_wordwarden.GoText.Sorting.{sort_texts}
use authrim_wordwarden.Hmac.Request.{
  Request, Result, ok, err, ◌>>=◌, ◌>>◌, require, header_values, missing_header, unsigned_header,
  malformed_signed_field,
}

abbrev pub header_connector_id : Text
header_connector_id = lit "X-Authrim-Connector-Id"

abbrev pub header_key_id : Text
header_key_id = lit "X-Authrim-Key-Id"

abbrev pub header_request_id : Text
header_request_id = lit "X-Authrim-Request-Id"

abbrev pub header_timestamp : Text
header_timestamp = lit "X-Authrim-Timestamp"

abbrev pub header_nonce : Text
header_nonce = lit "X-Authrim-Nonce"

abbrev pub header_signed_headers : Text
header_signed_headers = lit "X-Authrim-Signed-Headers"

abbrev pub header_signature : Text
header_signature = lit "X-Authrim-Signature"

pub record HmacHeaders : Type 0 where
  pub connector_id : Text
  pub key_id : Text
  pub request_id : Text
  pub timestamp : Text
  pub nonce : Text
  pub signed_headers : List Text
  pub signature : Text

single : List Text → Result Text
single [] = err missing_header
single (value ∷ []) = ok value
single (value ∷ _ ∷ _) = err malformed_signed_field

unfoldable pub single_header_value : Request → Text → Result Text
unfolding single
single_header_value req name = single (header_values req name)

-- Appends a name, unless it is empty or already there; the list's items are the keys of `seen`.
unfoldable pub add_name : List Text → Text → List Text
add_name headers name =
    if is_nil name || contains name headers then headers else headers ++ name ∷ []

module _ (u : Unicode) where
  -- The loop over the parts, with the headers collected so far.
  unfoldable pub collect : List Text → List Text → List Text
  collect headers [] = headers
  collect headers (part ∷ parts) = collect (add_name headers (to_lower u (trim_space u part))) parts

  unfoldable pub parse_signed_headers : Text → List Text
  unfolding collect
  parse_signed_headers raw = sort_texts (collect [] (split b';' raw))

  abbrev pub required_names : List Text
  required_names =
      lit "content-type"
      ∷ to_lower u header_connector_id
      ∷ to_lower u header_key_id
      ∷ to_lower u header_request_id
      ∷ to_lower u header_timestamp
      ∷ to_lower u header_nonce
      ∷ []

  unfoldable pub contains_required_signed_headers : List Text → Bool
  contains_required_signed_headers headers = all (λ name. contains name headers) required_names

  unfoldable pub required_headers : Request → Result HmacHeaders
  unfolding contains_required_signed_headers
  required_headers req = do
    connector_id ← single_header_value req header_connector_id
    key_id ← single_header_value req header_key_id
    request_id ← single_header_value req header_request_id
    timestamp ← single_header_value req header_timestamp
    nonce ← single_header_value req header_nonce
    raw_signed_headers ← single_header_value req header_signed_headers
    signature ← single_header_value req header_signature
    let values : HmacHeaders = record {
      connector_id = trim_space u connector_id;
      key_id = trim_space u key_id;
      request_id = trim_space u request_id;
      timestamp = trim_space u timestamp;
      nonce = trim_space u nonce;
      signed_headers = parse_signed_headers (trim_space u raw_signed_headers);
      signature = trim_space u signature;
    }
    require
        (not (
          is_nil values.connector_id
          || is_nil values.key_id
          || is_nil values.request_id
          || is_nil values.timestamp
          || is_nil values.nonce
          || is_nil (trim_space u raw_signed_headers)
          || is_nil values.signature))
        missing_header
    require (contains_required_signed_headers values.signed_headers) unsigned_header
    ok values
