-- ===== src/Http/Messages.antt =====
-- The messages of internal/ports/httpapi/server.go, and the codes of its errors.
use authrim_wordwarden.Prelude.{
  ℕ, Bool, not, ◌&&◌, List, [], ◌∷◌, Option, Text, lit, is_nil, ◌++◌, ◌||◌, if◌then◌else◌,
}
use authrim_wordwarden.Directory.{
  GroupFact, Error, directory_tls, directory_unavailable, directory_referral,
}
use authrim_wordwarden.Hmac.Request.{
  HmacError, missing_header, unsigned_header, invalid_timestamp, stale_timestamp, unknown_key,
  invalid_signature, malformed_signed_field, read_failed, body_too_large,
}
use authrim_wordwarden.Hmac.Canonical.{Crypto}
use authrim_wordwarden.GoText.Escaping.{hex}

pub record VerifyPasswordRequest : Type 0 where
  pub request_id : Text
  pub tenant_id : Text
  pub connector_id : Text
  pub username : Text
  pub password : Text
  pub attribute_names : List Text

pub record SubjectResponse : Type 0 where
  pub directory_id : Text
  pub username : Text

pub record GroupFactResponse : Type 0 where
  pub id : Text
  pub dn : Text
  pub display : Text
  pub source : Text
  pub depth : ℕ

pub record VerifyPasswordResponse : Type 0 where
  pub request_id : Text
  pub tenant_id : Text
  pub connector_id : Text
  pub result : Text
  pub reason : Text
  pub subject : Option SubjectResponse
  pub attributes : List (Text × List Text)
  pub group_facts : List GroupFactResponse
  pub directory_status : Text

-- The payload `error` of the source is the pair of `code` and `retryable`.
pub record ErrorResponse : Type 0 where
  pub request_id : Text
  pub tenant_id : Text
  pub connector_id : Text
  pub code : Text
  pub retryable : Bool

-- A status with the value that is encoded behind it.
pub data Reply : Type 0 where
  error_reply : (status : ℕ) → ErrorResponse → Reply
  verify_reply : (status : ℕ) → VerifyPasswordResponse → Reply

unfoldable pub group_fact_responses : List GroupFact → List GroupFactResponse
group_fact_responses [] = []
group_fact_responses (fact ∷ facts) =
    record {
      id = fact.id;
      dn = fact.dn;
      display = fact.display;
      source = fact.source;
      depth = fact.depth;
    }
    ∷ group_fact_responses facts

unfoldable pub valid_verify_password_request : VerifyPasswordRequest → Bool
valid_verify_password_request r =
    not (is_nil r.request_id)
    && not (is_nil r.tenant_id)
    && not (is_nil r.connector_id)
    && not (is_nil r.username)
    && not (is_nil r.password)

-- A body that is too large is answered before this is asked.
unfoldable pub hmac_error_code : HmacError → Text
hmac_error_code missing_header = lit "missing_hmac_header"
hmac_error_code unsigned_header = lit "unsigned_required_hmac_header"
hmac_error_code invalid_timestamp = lit "invalid_hmac_timestamp"
hmac_error_code stale_timestamp = lit "stale_hmac_timestamp"
hmac_error_code unknown_key = lit "unknown_hmac_key"
hmac_error_code invalid_signature = lit "invalid_hmac_signature"
hmac_error_code malformed_signed_field = lit "malformed_signed_header"
hmac_error_code read_failed = lit "hmac_verification_failed"
hmac_error_code body_too_large = lit "hmac_verification_failed"

unfoldable pub directory_error_code : Error → Text
directory_error_code directory_tls = lit "directory_tls_error"
directory_error_code directory_unavailable = lit "directory_unavailable"
directory_error_code directory_referral = lit "directory_referral"
directory_error_code _ = lit "directory_error"

unfoldable pub username_hash : Crypto → Text → Text → Text
username_hash c secret username =
    if is_nil username || is_nil secret
    then []
    else lit "hmac-sha256:" ++ hex (c.hmac_sha256 secret username)
