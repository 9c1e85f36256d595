-- ===== src/Hmac/Request.antt =====
-- What internal/adapters/hmac/verifier.go reads of an `http.Request`, and its errors.
use authrim_wordwarden.Prelude.{
  ℕ, List, [], ◌∷◌, none, some, Text, text_eq, lookup, Bool, if◌then◌else◌, ltb, length,
}
use authrim_wordwarden.GoText.Escaping.{canonical_header_key}

-- A body, as reading it goes: whole, or broken off behind some bytes.
pub data Body : Type 0 where
  whole broken : Text → Body

-- `headers` is the map of http.Header under canonical names; `query` is `URL.Query()`.
pub record Request : Type 0 where
  pub method : Text
  pub escaped_path : Text
  pub query : List (Text × List Text)
  pub headers : List (Text × List Text)
  pub body : Body

pub data HmacError : Type 0 where
  missing_header unsigned_header invalid_timestamp stale_timestamp : HmacError
  unknown_key invalid_signature malformed_signed_field : HmacError
  read_failed body_too_large : HmacError

pub data Result {ℓ} (A : Type ℓ) : Type ℓ where
  ok : A → Result A
  err : HmacError → Result A

infixl 5 ◌>>=◌ ◌>>◌
abbrev pub ◌>>=◌ {κ μ} : {S : Type κ} {T : Type μ} → Result S → (S → Result T) → Result T
ok value >>= next = next value
err why >>= next = err why

abbrev pub ◌>>◌ {μ} : {T : Type μ} → Result (Unit {0}) → Result T → Result T
first >> next = first >>= λ done. next

-- `if !test { return ..., e }`
abbrev pub require : Bool → HmacError → Result (Unit {0})
require test e = if test then ok tt else err e

-- `req.Header.Values(name)`
unfoldable pub header_values : Request → Text → List Text
header_values req name = elim (lookup (canonical_header_key name) req.headers) [
  | none ↦ []
  | some values ↦ values
]

-- `req.Header.Get(name)`
unfoldable pub header_get : Request → Text → Text
unfolding header_values
header_get req name = elim (header_values req name) [ [] ↦ [] | value ∷ _ ↦ value ]

-- `io.ReadAll` behind `http.MaxBytesReader`.
unfoldable pub read_all : ℕ → Body → Result Text
read_all max (whole s) = if ltb max (length s) then err body_too_large else ok s
read_all max (broken s) = if ltb max (length s) then err body_too_large else err read_failed
