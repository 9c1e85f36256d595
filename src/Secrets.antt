-- ===== src/Secrets.antt =====
-- The references to secrets, of internal/ports/secrets/secrets.go.
pub mod References
pub mod Resolving
use authrim_wordwarden.Prelude.{
  ◌||◌, Option, none, some, Text, lit, text_eq, ◌==◌, is_nil, if◌then◌else◌,
}
use authrim_wordwarden.GoText.{cut}

pub record SecretRef : Type 0 where
  pub scheme : Text
  pub name : Text
  pub raw : Text

-- An error's text is not modelled.
pub data Parsed : Type 0 where
  reference : SecretRef → Parsed
  empty_reference invalid_reference unsupported_scheme : Parsed

-- Behind `strings.Cut`.
unfoldable pub parse_parts : Text → Option (Text × Text) → Parsed
parse_parts raw none = invalid_reference
parse_parts raw (some (scheme, name)) =
    if is_nil scheme || is_nil name
    then invalid_reference
    else if scheme == lit "env" || scheme == lit "file"
    then reference (record { scheme = scheme; name = name; raw = raw })
    else unsupported_scheme

unfoldable pub parse_ref : Text → Parsed
parse_ref raw = if is_nil raw then empty_reference else parse_parts raw (cut b':' raw)
