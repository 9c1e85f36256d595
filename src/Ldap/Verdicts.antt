-- ===== src/Ldap/Verdicts.antt =====
-- Which errors of internal/adapters/ldap/client.go are verdicts on the credentials.
use authrim_wordwarden.Prelude.{
  ℕ, ◌≡◌, ◌≢◌, ◌↔◌, ◌⊎◌, false, Option, none, some, Text, text_eq, lit, arith, Bool-cases,
  Option-cases, inl, inr, refl,
}
use authrim_wordwarden.Directory
use authrim_wordwarden.Directory.{
  VerifyPasswordResult, is_success, invalid_credentials, account_disabled, account_locked,
  password_expired, must_change_password, user_not_found, ambiguous_user, directory_tls,
  directory_unavailable, directory_referral, other, failed_verification,
  policy_required_verification,
}
use authrim_wordwarden.Directory.Verdicts.{refusals}
use authrim_wordwarden.Config.{LdapConfig}
use authrim_wordwarden.Ldap.Network.{Failure, ldap_error, known}
use authrim_wordwarden.Ldap.Errors.{
  is_ad, find_code, ad_error_of_code, normalize_ad_invalid_credentials_error, normalize_ldap_error,
  credential_verdict_from_bind_error, user_resolution_failure_result,
}

dec_eq : (a b : ℕ) → (a ≡ b) ⊎ (a ≢ b)
dec_eq a b = ground arith

-- The errors that a code of Active Directory may stand for.
abbrev pub IsAdError : Directory.Error → Type 0
IsAdError e =
    (e ≡ password_expired)
    ⊎ ((e ≡ account_disabled) ⊎ ((e ≡ must_change_password) ⊎ (e ≡ account_locked)))

code-IsAdError :
    (code : Option Text) (e : Directory.Error) → ad_error_of_code code ≡ some e → IsAdError e
unfolding ad_error_of_code
code-IsAdError none e h = cc
code-IsAdError (some digits) e h = ground arith

pub verdict_not_success :
    (f : Failure) (r : VerifyPasswordResult)
    → credential_verdict_from_bind_error f ≡ some r
    → is_success r ≡ false
unfolding credential_verdict_from_bind_error
verdict_not_success (known invalid_credentials) r h =
    ground (arith, refusals (lit "invalid_credentials"))
verdict_not_success (known account_disabled) r h = ground (arith, refusals (lit "account_disabled"))
verdict_not_success (known account_locked) r h = ground (arith, refusals (lit "account_locked"))
verdict_not_success (known password_expired) r h = ground (arith, refusals (lit "password_expired"))
verdict_not_success (known must_change_password) r h =
    ground (arith, refusals (lit "must_change_password"))
verdict_not_success _ r h = cc

pub resolution_not_success :
    (f : Failure) (r : VerifyPasswordResult)
    → user_resolution_failure_result f ≡ some r
    → is_success r ≡ false
unfolding user_resolution_failure_result
resolution_not_success (known user_not_found) r h =
    ground (arith, refusals (lit "invalid_credentials"))
resolution_not_success (known ambiguous_user) r h =
    ground (arith, refusals (lit "invalid_credentials"))
resolution_not_success _ r h = cc

normalized_refusal :
    (cfg : LdapConfig) (text : Text)
    → (e : Directory.Error) × (normalize_ldap_error cfg (ldap_error 49 text) ≡ known e)
      × ((e ≡ invalid_credentials) ⊎ IsAdError e)
unfolding normalize_ldap_error normalize_ad_invalid_credentials_error
normalized_refusal cfg text = elim (Bool-cases (is_ad cfg)) [
  | inr off ↦ (invalid_credentials, rw off, inl refl)
  | inl on ↦ elim (Option-cases (ad_error_of_code (find_code false text))) [
    | inl none_found ↦ (invalid_credentials, rw (on, none_found), inl refl)
    | inr (e, found) ↦ (e, rw (on, found), inr (code-IsAdError _ e found))
  ]
]

normalized_other :
    (cfg : LdapConfig) (code : ℕ) (text : Text)
    → code ≢ 49
    → let f = normalize_ldap_error cfg (ldap_error code text) in
      (f ≡ known directory_unavailable)
      ⊎ ((f ≡ known directory_referral) ⊎ (f ≡ ldap_error code text))
unfolding normalize_ldap_error
normalized_other cfg code text h = ground arith

verdict_of_refusal :
    (e : Directory.Error)
    → (e ≡ invalid_credentials) ⊎ IsAdError e
    → (credential_verdict_from_bind_error (known e) ≢ none)
      × (user_resolution_failure_result (known e) ≡ none)
unfolding credential_verdict_from_bind_error user_resolution_failure_result
verdict_of_refusal e (inl h) = rw h (cc, refl)
verdict_of_refusal e (inr (inl h)) = rw h (cc, refl)
verdict_of_refusal e (inr (inr (inl h))) = rw h (cc, refl)
verdict_of_refusal e (inr (inr (inr (inl h)))) = rw h (cc, refl)
verdict_of_refusal e (inr (inr (inr (inr h)))) = rw h (cc, refl)

verdict_of_other :
    (cfg : LdapConfig) (code : ℕ) (text : Text)
    → code ≢ 49
    → (credential_verdict_from_bind_error (normalize_ldap_error cfg (ldap_error code text)) ≡ none)
      × (user_resolution_failure_result (normalize_ldap_error cfg (ldap_error code text)) ≡ none)
unfolding credential_verdict_from_bind_error user_resolution_failure_result
verdict_of_other cfg code text h = elim (normalized_other cfg code text h) [
  | inl e ↦ rw e (refl, refl)
  | inr (inl e) ↦ rw e (refl, refl)
  | inr (inr e) ↦ rw e (refl, refl)
]

-- A verdict that is no success, or none.
abbrev pub IsRefusal : Option VerifyPasswordResult → Type 0
IsRefusal none = Unit
IsRefusal (some r) = is_success r ≡ false

IsRefusal-verdict :
    (verdict : Option VerifyPasswordResult)
    → ((r : VerifyPasswordResult) → verdict ≡ some r → is_success r ≡ false)
    → IsRefusal verdict
IsRefusal-verdict none h = tt
IsRefusal-verdict (some r) h = h r refl

-- An error of the directory that a bind meets is a verdict on the credentials exactly when its
-- result code is invalidCredentials, whatever its text and the profile; no such verdict is a
-- success; and with any other code no user that is missing or ambiguous is reported either.
pub bind_verdicts :
    (cfg : LdapConfig) (code : ℕ) (text : Text)
    → let f = normalize_ldap_error cfg (ldap_error code text) in
      ((credential_verdict_from_bind_error f ≡ none) ↔ (code ≢ 49))
      × IsRefusal (credential_verdict_from_bind_error f)
      × (user_resolution_failure_result f ≡ none)
bind_verdicts cfg code text = (
  (
    λ none_given is_49.
        let (e, norm, kind) = normalized_refusal cfg text in
        (verdict_of_refusal e kind).0 (cc (none_given, norm, is_49)),
    λ differs. (verdict_of_other cfg code text differs).0,
  ),
  IsRefusal-verdict _ (verdict_not_success _),
  elim (dec_eq code 49) [
    | inr differs ↦ (verdict_of_other cfg code text differs).1
    | inl same ↦
        let (e, norm, kind) = normalized_refusal cfg text in
        cc (same, norm, (verdict_of_refusal e kind).1)
  ],
)
