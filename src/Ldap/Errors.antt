-- ===== src/Ldap/Errors.antt =====
-- The errors of the LDAP client and the verdicts that they stand for, of
-- internal/adapters/ldap/client.go.
use authrim_wordwarden.Prelude.{
  ℕ, Bool, false, ◌&&◌, ◌||◌, not, [], ◌∷◌, Option, none, some, Text, lit, text_eq, ◌==◌, is_nil,
  if◌then◌else◌, eqb, leb, map,
}
use authrim_wordwarden.GoText.{lower_byte}
use authrim_wordwarden.GoText.Escaping.{is_alnum}
use authrim_wordwarden.Directory
use authrim_wordwarden.Directory.{
  VerifyPasswordResult, failed_verification, policy_required_verification, is_success,
  invalid_credentials, account_disabled, account_locked, password_expired, must_change_password,
  user_not_found, ambiguous_user, directory_unavailable, directory_referral,
}
use authrim_wordwarden.Config.{LdapConfig}
use authrim_wordwarden.Ldap.Network.{Failure, ldap_error, known, out_of_rounds}

-- `\s`, `\w` and `[0-9a-f]` without regard to case, of package regexp.
abbrev is_blank : ℕ → Bool
is_blank c = eqb c 32 || eqb c 9 || eqb c 10 || eqb c 12 || eqb c 13

abbrev is_word : ℕ → Bool
is_word c = is_alnum c || eqb c b'_'

abbrev is_hex : ℕ → Bool
is_hex c = (leb b'0' c && leb c b'9') || (leb b'a' (lower_byte c) && leb (lower_byte c) b'f')

abbrev starts : (ℕ → Bool) → Text → Bool
starts p [] = false
starts p (c ∷ s) = p c

unfoldable pub hex_digits : Text → Text
unfolding lower_byte
hex_digits [] = []
hex_digits (c ∷ s) = let rest = hex_digits s in if is_hex c then c ∷ rest else []

-- What follows the hexadecimal digits.
unfoldable pub behind_hex : Text → Text
unfolding lower_byte
behind_hex [] = []
behind_hex (c ∷ s) = let rest = behind_hex s in if is_hex c then rest else c ∷ s

unfoldable pub drop_blanks : Text → Text
drop_blanks [] = []
drop_blanks (c ∷ s) = let rest = drop_blanks s in if is_blank c then rest else c ∷ s

-- The digits that `data\s+([0-9a-f]+)\b` finds behind its first word.
unfoldable pub code_behind : Text → Option Text
unfolding hex_digits behind_hex drop_blanks is_alnum
code_behind s =
    let rest = drop_blanks s in
    if not (starts is_blank s) || is_nil (hex_digits rest) || starts is_word (behind_hex rest)
    then none
    else some (hex_digits rest)

unfoldable pub code_here : Text → Option Text
unfolding code_behind lower_byte
code_here (d ∷ a ∷ t ∷ b ∷ s) =
    if map lower_byte (d ∷ a ∷ t ∷ b ∷ []) == lit "data" then code_behind s else none
code_here s = none

-- `adDataCodePattern.FindStringSubmatch`: the leftmost match, behind no word character.
unfoldable pub find_code : Bool → Text → Option Text
unfolding code_here is_alnum
find_code in_word [] = none
find_code in_word (c ∷ s) =
    let rest = find_code (is_word c) s in
    elim (if in_word then none else code_here (c ∷ s)) [ none ↦ rest | some code ↦ some code ]

unfoldable pub ad_error_of_code : Option Text → Option Directory.Error
unfolding lower_byte
ad_error_of_code none = none
ad_error_of_code (some digits) =
    let code = map lower_byte digits in
    if code == lit "532"
    then some password_expired
    else if code == lit "533"
    then some account_disabled
    else if code == lit "773"
    then some must_change_password
    else if code == lit "775"
    then some account_locked
    else none

unfoldable pub normalize_ad_invalid_credentials_error : Text → Option Directory.Error
unfolding find_code ad_error_of_code
normalize_ad_invalid_credentials_error text = ad_error_of_code (find_code false text)

-- Does the profile ask for the codes of Active Directory?
abbrev pub is_ad : LdapConfig → Bool
is_ad cfg =
    cfg.directory_profile.status_normalization == lit "active_directory"
    || (is_nil cfg.directory_profile.status_normalization
        && cfg.directory_profile.name == lit "active_directory")

-- The result codes invalidCredentials, connectError and referral.
unfoldable pub normalize_ldap_error : LdapConfig → Failure → Failure
normalize_ldap_error cfg (known e) = known e
normalize_ldap_error cfg out_of_rounds = out_of_rounds
normalize_ldap_error cfg (ldap_error code text) =
    if eqb code 49
    then elim (if is_ad cfg then normalize_ad_invalid_credentials_error text else none) [
      | none ↦ known invalid_credentials
      | some mapped ↦ known mapped
    ]
    else if eqb code 91
    then known directory_unavailable
    else if eqb code 10
    then known directory_referral
    else ldap_error code text

unfoldable pub credential_verdict_from_bind_error : Failure → Option VerifyPasswordResult
credential_verdict_from_bind_error (known invalid_credentials) =
    some (failed_verification (lit "invalid_credentials"))
credential_verdict_from_bind_error (known account_disabled) =
    some (failed_verification (lit "account_disabled"))
credential_verdict_from_bind_error (known account_locked) =
    some (failed_verification (lit "account_locked"))
credential_verdict_from_bind_error (known password_expired) =
    some (policy_required_verification (lit "password_expired"))
credential_verdict_from_bind_error (known must_change_password) =
    some (policy_required_verification (lit "must_change_password"))
credential_verdict_from_bind_error _ = none

unfoldable pub user_resolution_failure_result : Failure → Option VerifyPasswordResult
user_resolution_failure_result (known user_not_found) =
    some (failed_verification (lit "invalid_credentials"))
user_resolution_failure_result (known ambiguous_user) =
    some (failed_verification (lit "invalid_credentials"))
user_resolution_failure_result _ = none
