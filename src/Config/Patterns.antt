-- ===== src/Config/Patterns.antt =====
-- The patterns and the references that internal/ports/config/config.go checks.
use authrim_wordwarden.Prelude.{
  Bool, false, not, ◌&&◌, ◌||◌, List, [], ◌∷◌, ◌++◌, Text, lit, text_eq, is_nil, if◌then◌else◌, eqb,
  leb, length, all, ℕ,
}
use authrim_wordwarden.GoUrl.{UrlParser}
use authrim_wordwarden.GoText.{Unicode}
use authrim_wordwarden.GoText.Splitting.{split}
use authrim_wordwarden.GoText.Encoding.{has_prefix, trim_prefix, drop_bytes}
use authrim_wordwarden.Secrets.{
  Parsed, reference, empty_reference, invalid_reference, unsupported_scheme, parse_ref,
}

-- What validation uses of Go's libraries: the tables of Unicode, net/url, and `%q`.
pub record Platform : Type 0 where
  pub unicode : Unicode
  pub urls : UrlParser
  pub quote : Text → Text

unfoldable pub is_letter : ℕ → Bool
is_letter c = (leb b'A' c && leb c b'Z') || (leb b'a' c && leb c b'z')

unfoldable pub is_alphanumeric : ℕ → Bool
unfolding is_letter
is_alphanumeric c = is_letter c || (leb b'0' c && leb c b'9')

-- `connectorIDPattern`
unfoldable pub connector_id_matches : Text → Bool
connector_id_matches id =
    has_prefix id (lit "wwcon_") && (eqb (length id) 22 && all is_alphanumeric (drop_bytes 6 id))

unfoldable pub is_description_byte : ℕ → Bool
is_description_byte c = is_alphanumeric c || eqb c b'-'

abbrev is_option : Text → Bool
is_option part = not (is_nil part) && all is_description_byte part

abbrev is_attribute_name : Text → Bool
is_attribute_name [] = false
is_attribute_name (c ∷ s) = is_letter c && all is_description_byte s

abbrev is_description : List Text → Bool
is_description [] = false
is_description (name ∷ options) = is_attribute_name name && all is_option options

-- `ldapAttributeDescriptionPattern`: a name, and options behind semicolons.
unfoldable pub valid_ldap_attribute_description : Text → Bool
valid_ldap_attribute_description value = is_description (split b';' value)

-- The scheme that `strings.Cut` found.
abbrev first_part : List Text → Text
first_part [] = []
first_part (scheme ∷ rest) = scheme

module _ (platform : Platform) where
  -- The error of `ParseRef`, behind the name of the field.
  unfoldable pub reference_problems : Text → Text → Parsed → List Text
  reference_problems field raw (reference r) = []
  reference_problems field raw empty_reference = (field ++ lit ": secret reference is empty") ∷ []
  reference_problems field raw invalid_reference =
      (field ++ lit ": invalid secret reference " ++ platform.quote raw) ∷ []
  reference_problems field raw unsupported_scheme =
      (field
        ++ lit ": unsupported secret reference scheme "
        ++ platform.quote (first_part (split b':' raw)))
      ∷ []

  unfoldable pub validate_secret_ref : Text → Text → List Text
  validate_secret_ref field raw = reference_problems field raw (parse_ref raw)

  unfoldable pub validate_optional_secret_ref : Text → Text → List Text
  unfolding validate_secret_ref
  validate_optional_secret_ref field raw = if is_nil raw then [] else validate_secret_ref field raw

unfoldable pub validate_file_ref : Text → Text → Bool → List Text
validate_file_ref field raw is_required =
    if is_nil raw
    then (if is_required then (field ++ lit " is required") ∷ [] else [])
    else if not (has_prefix raw (lit "file:")) || is_nil (trim_prefix raw (lit "file:"))
    then (field ++ lit " must use file:<path>") ∷ []
    else []
