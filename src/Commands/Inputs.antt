-- ===== src/Commands/Inputs.antt =====
-- Small readings of internal/app/command.go: a password from the standard input, and the paths of the
-- server's certificate.
use authrim_wordwarden.Prelude.{
  true, false, not, ◌||◌, [], ◌∷◌, Option, none, some, Text, lit, is_nil, if◌then◌else◌, eqb,
}
use authrim_wordwarden.GoText.Encoding.{has_prefix, trim_prefix}
use authrim_wordwarden.Config.{ServerTlsConfig}

-- `strings.TrimRight` with "\r\n".
unfoldable pub trim_line_end : Text → Text
trim_line_end [] = []
trim_line_end (c ∷ s) = elim (trim_line_end s) [
  | [] ↦ if eqb c b'\r' || eqb c b'\n' then [] else c ∷ []
  | d ∷ rest ↦ c ∷ d ∷ rest
]

-- Up to the first newline, and it.
unfoldable pub read_line : Text → Text
read_line [] = []
read_line (c ∷ s) = elim (eqb c b'\n') [ true ↦ c ∷ [] | false ↦ c ∷ read_line s ]

-- `readPassword` of an input that ends without an error other than its end.
unfoldable pub read_password : Text → Text
read_password input = trim_line_end (read_line input)

-- An error is `none`.
unfoldable pub file_ref_path : Text → Option Text
file_ref_path ref =
    if not (has_prefix ref (lit "file:"))
    then none
    else if is_nil (trim_prefix ref (lit "file:"))
    then none
    else some (trim_prefix ref (lit "file:"))

abbrev both : Option Text → Option Text → Option (Text × Text)
both (some a) (some b) = some (a, b)
both _ _ = none

unfoldable pub tls_file_paths : ServerTlsConfig → Option (Text × Text)
tls_file_paths tls =
    if is_nil tls.cert_file_ref || is_nil tls.key_file_ref
    then none
    else both (file_ref_path tls.cert_file_ref) (file_ref_path tls.key_file_ref)
