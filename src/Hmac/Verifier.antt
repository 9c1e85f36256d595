-- ===== src/Hmac/Verifier.antt =====
-- The verifier of internal/adapters/hmac/verifier.go.
use authrim_wordwarden.Prelude.{
  ℕ, not, Option, none, some, Text, text_eq, ◌==◌, if◌then◌else◌, pos, lt_int,
}
use authrim_wordwarden.GoTime.{Time, Duration, sub, abs}
use authrim_wordwarden.GoText.{Unicode}
use authrim_wordwarden.Hmac.Request.{
  Request, Result, ok, err, HmacError, ◌>>=◌, ◌>>◌, require, read_all, invalid_timestamp,
  stale_timestamp, unknown_key, invalid_signature,
}
use authrim_wordwarden.Hmac.Headers.{required_headers}
use authrim_wordwarden.Hmac.Canonical.{Crypto, canonical_request, sign_canonical}

pub record Key : Type 0 where
  pub kid : Text
  pub secret : Text

pub record KeySet : Type 0 where
  pub active : Key
  pub previous : Option Key

-- The clock is an argument of `verify`.
pub record Verifier : Type 0 where
  pub keys : KeySet
  pub clock_skew : Duration

pub record VerificationResult : Type 0 where
  pub connector_id : Text
  pub key_id : Text
  pub request_id : Text
  pub timestamp : Time
  pub nonce : Text

-- 2 * time.Minute
abbrev pub two_minutes : Duration
two_minutes = pos 120000000000

unfoldable pub new_verifier : KeySet → Verifier
new_verifier keys = record { keys = keys; clock_skew = two_minutes }

lookup_previous : Option Key → Text → Option Key
lookup_previous none kid = none
lookup_previous (some key) kid = if key.kid == kid then some key else none

unfoldable pub lookup_key : KeySet → Text → Option Key
unfolding lookup_previous
lookup_key keys kid =
    if keys.active.kid == kid then some keys.active else lookup_previous keys.previous kid

abbrev pub or_fail {ℓ} : {A : Type ℓ} → Option A → HmacError → Result A
or_fail none e = err e
or_fail (some a) e = ok a

-- `parse` is `time.Parse(time.RFC3339, ...)`.
module _ (u : Unicode) (c : Crypto) (parse : Text → Option Time) where
  -- The checks behind the reading of the body, which is at most `max` bytes long.
  unfoldable pub verify_body : Verifier → Time → Request → Text → Result VerificationResult
  verify_body v now req body = do
    headers ← required_headers u req
    timestamp ← or_fail (parse headers.timestamp) invalid_timestamp
    require (not (lt_int v.clock_skew (abs (sub now timestamp)))) stale_timestamp
    key ← or_fail (lookup_key v.keys headers.key_id) unknown_key
    canonical ←
        canonical_request u c req body headers.signed_headers headers.timestamp headers.nonce
    require (sign_canonical c canonical key.secret == headers.signature) invalid_signature
    ok (record {
      connector_id = headers.connector_id;
      key_id = headers.key_id;
      request_id = headers.request_id;
      timestamp = timestamp;
      nonce = headers.nonce;
    })

  -- The body is returned with the result; the body that accompanies an error is not used.
  unfoldable pub verify : ℕ → Verifier → Time → Request → Result (VerificationResult × Text)
  unfolding verify_body
  verify max v now req = do
    body ← read_all max req.body
    verification ← verify_body v now req body
    ok (verification, body)
