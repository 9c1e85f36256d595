-- ===== src/Directory.antt =====
-- internal/core/directory: the verdicts of a directory client and its errors.
pub mod Verdicts
use authrim_wordwarden.Prelude.{
  ℕ, ◌≡◌, Bool, true, false, List, [], ◌∷◌, if◌then◌else◌, Text, lit, ◌==◌, text_eq, is_nil, not,
}

-- The sentinel errors, and `other` for any error that wraps none of them.
pub data Error : Type 0 where
  invalid_credentials user_not_found ambiguous_user directory_tls : Error
  directory_unavailable directory_referral account_disabled account_locked : Error
  password_expired must_change_password other : Error

pub record Subject : Type 0 where
  pub directory_id : Text
  pub username : Text

pub record GroupFact : Type 0 where
  pub id : Text
  pub dn : Text
  pub display : Text
  pub source : Text
  pub depth : ℕ

pub record VerifyPasswordRequest : Type 0 where
  pub username : Text
  pub password : Text
  pub attribute_names : List Text

-- CredentialResult is a string in the source too.
abbrev pub result_success : Text
result_success = lit "success"

abbrev pub result_failure : Text
result_failure = lit "failure"

abbrev pub result_policy_required : Text
result_policy_required = lit "policy_required"

abbrev pub result_source_unavailable : Text
result_source_unavailable = lit "source_unavailable"

abbrev pub reason_invalid_credentials : Text
reason_invalid_credentials = lit "invalid_credentials"

abbrev pub reason_directory_unavailable : Text
reason_directory_unavailable = lit "directory_unavailable"

pub record VerifyPasswordResult : Type 0 where
  pub result : Text
  pub success : Bool
  pub reason : Text
  pub subject : Subject
  pub attributes : List (Text × List Text)
  pub group_facts : List GroupFact

abbrev pub no_subject : Subject
no_subject = record { directory_id = []; username = [] }

unfoldable pub first_facts : List (List GroupFact) → List GroupFact
first_facts [] = []
first_facts (facts ∷ _) = facts

-- The variadic `groupFacts` is a list.
unfoldable pub successful_verification :
    Subject → List (Text × List Text) → List (List GroupFact) → VerifyPasswordResult
unfolding first_facts
successful_verification subject attributes facts = record {
  result = result_success;
  success = true;
  reason = [];
  subject = subject;
  attributes = attributes;
  group_facts = first_facts facts;
}

unsuccessful : Text → Text → VerifyPasswordResult
unsuccessful result reason = record {
  result = result;
  success = false;
  reason = reason;
  subject = no_subject;
  attributes = [];
  group_facts = [];
}

unfoldable pub failed_verification : Text → VerifyPasswordResult
unfolding unsuccessful
failed_verification reason =
    unsuccessful result_failure (if is_nil reason then reason_invalid_credentials else reason)

unfoldable pub policy_required_verification : Text → VerifyPasswordResult
unfolding unsuccessful
policy_required_verification reason = unsuccessful result_policy_required reason

unfoldable pub source_unavailable_verification : Text → VerifyPasswordResult
unfolding unsuccessful
source_unavailable_verification reason =
    unsuccessful result_source_unavailable
      (if is_nil reason then reason_directory_unavailable else reason)

unfoldable pub credential_result : VerifyPasswordResult → Text
credential_result r =
    if not (is_nil r.result) then r.result else if r.success then result_success else result_failure

unfoldable pub is_success : VerifyPasswordResult → Bool
unfolding credential_result
is_success r = credential_result r == result_success

unfoldable pub safe_reason : VerifyPasswordResult → Text
safe_reason r =
    if not (is_nil r.reason)
    then r.reason
    else if credential_result r == result_failure
    then reason_invalid_credentials
    else if credential_result r == result_source_unavailable
    then reason_directory_unavailable
    else credential_result r

-- What a directory client answers: a result or an error.
pub data Answer : Type 0 where
  answered : VerifyPasswordResult → Answer
  failed : Error → Answer
