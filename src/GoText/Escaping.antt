-- ===== src/GoText/Escaping.antt =====
-- `url.QueryEscape`, `hex.EncodeToString` and the canonical spelling of a header's name.
use authrim_wordwarden.Prelude.{
  ℕ, ◌+◌, ◌-◌, ◌/◌, ◌%◌, Bool, true, ◌&&◌, ◌||◌, [], ◌∷◌, ◌++◌, if◌then◌else◌, eqb, leb, ltb, Text,
  lit, all, All, All-append, arith, ◌≤◌,
}
use authrim_wordwarden.GoText.{lower_byte, upper_byte, contains_byte}

abbrev hex_digit : ℕ → ℕ → ℕ
hex_digit ten d = if ltb d 10 then b'0' + d else ten + (d - 10)

-- Two hexadecimal digits to a byte, small letters.
unfoldable pub hex : Text → Text
hex [] = []
hex (c ∷ s) = hex_digit b'a' (c / 16 % 16) ∷ hex_digit b'a' (c % 16) ∷ hex s

unfoldable pub is_alnum : ℕ → Bool
is_alnum c = (leb b'a' c && leb c b'z') || (leb b'A' c && leb c b'Z') || (leb b'0' c && leb c b'9')

abbrev is_unreserved : ℕ → Bool
is_unreserved c = is_alnum c || eqb c b'-' || eqb c b'_' || eqb c b'.' || eqb c b'~'

unfoldable pub escape_byte : ℕ → Text
unfolding is_alnum
escape_byte c =
    if is_unreserved c
    then c ∷ []
    else if eqb c 32
    then b'+' ∷ []
    else b'%' ∷ hex_digit b'A' (c / 16 % 16) ∷ hex_digit b'A' (c % 16) ∷ []

unfoldable pub query_escape : Text → Text
unfolding escape_byte
query_escape [] = []
query_escape (c ∷ s) = escape_byte c ++ query_escape s

-- The bytes of a header's name, `validHeaderFieldByte`.
unfoldable pub is_token_byte : ℕ → Bool
unfolding is_alnum lit
is_token_byte c = is_alnum c || contains_byte c (lit "!#$%&'*+-.^_`|~")

-- Capitals at the start and after a dash, small letters elsewhere.
unfoldable pub capitalise : Bool → Text → Text
capitalise start [] = []
capitalise start (c ∷ s) =
    (if start then upper_byte c else lower_byte c) ∷ capitalise (eqb c b'-') s

-- `textproto.CanonicalMIMEHeaderKey`: a name with any other byte stays as it is.
unfoldable pub canonical_header_key : Text → Text
unfolding capitalise is_token_byte
canonical_header_key name = if all is_token_byte name then capitalise true name else name

abbrev pub Printable : ℕ → Type 0
Printable c = 32 ≤ c

escape_byte-Printable : (c : ℕ) → All Printable (escape_byte c)
unfolding escape_byte
escape_byte-Printable c = ground arith

-- An escaped text holds no control character.
pub query_escape-Printable : (s : Text) → All Printable (query_escape s)
unfolding query_escape
query_escape-Printable [] = tt
query_escape-Printable (c ∷ s) =
    All-append Printable (escape_byte c) (query_escape s) (escape_byte-Printable c)
      (query_escape-Printable s)

pub hex-Printable : (s : Text) → All Printable (hex s)
unfolding hex
hex-Printable [] = tt
hex-Printable (c ∷ s) = (ground arith, (ground arith, hex-Printable s))
