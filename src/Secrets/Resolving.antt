-- ===== src/Secrets/Resolving.antt =====
-- Secrets behind their references: internal/adapters/secrets/resolver.go, and resolveSecretBytes of
-- internal/app/command.go. The environment and the files are functions; an error is `none`.
use authrim_wordwarden.Prelude.{
  Option, none, some, Text, lit, text_eq, ◌==◌, is_nil, if◌then◌else◌, [],
}
use authrim_wordwarden.Secrets.{
  SecretRef, Parsed, reference, empty_reference, invalid_reference, unsupported_scheme, parse_ref,
}

pub record Host : Type 0 where
  pub lookup_env : Text → Option Text
  pub read_file : Text → Option Text

unfoldable pub resolve_secret : Host → SecretRef → Option Text
resolve_secret host ref =
    if ref.scheme == lit "env"
    then host.lookup_env ref.name
    else if ref.scheme == lit "file"
    then host.read_file ref.name
    else none

-- Behind `ParseRef`.
unfoldable pub resolve_parsed : Host → Parsed → Option Text
resolve_parsed host (reference ref) = resolve_secret host ref
resolve_parsed host empty_reference = none
resolve_parsed host invalid_reference = none
resolve_parsed host unsupported_scheme = none

unfoldable pub resolve_secret_bytes : Host → Text → Option Text
resolve_secret_bytes host raw = resolve_parsed host (parse_ref raw)

-- A reference that is empty gives no bytes.
unfoldable pub resolve_optional_secret_bytes : Host → Text → Option Text
resolve_optional_secret_bytes host raw =
    if is_nil raw then some [] else resolve_secret_bytes host raw
