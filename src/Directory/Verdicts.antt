-- ===== src/Directory/Verdicts.antt =====
-- The verdict that a result of internal/core/directory carries.
use authrim_wordwarden.Prelude.{
  ◌≡◌, ◌≢◌, ◌↔◌, ◌⊎◌, true, false, [], ◌∷◌, Text, lit, text_beq, text_iff, arith,
}
use authrim_wordwarden.Directory.{
  VerifyPasswordResult, result_success, result_failure, failed_verification,
  policy_required_verification, source_unavailable_verification, credential_result, is_success,
  safe_reason,
}

-- A result counts as a success exactly when it says so, in `Result` or, with no `Result`, in
-- `Success`.
pub is_success_iff :
    (r : VerifyPasswordResult)
    → (is_success r ≡ true) ↔ ((r.result ≡ result_success) ⊎ ((r.result ≡ []) × (r.success ≡ true)))
unfolding is_success credential_result lit
is_success_iff r = ground (
  arith,
  text_iff r.result result_success,
  text_iff result_failure result_success,
  text_iff result_success result_success,
)

-- Whatever the reason, an empty one included, the three constructors of a refusal give no success,
-- and the reason that they report is never empty.
pub refusals :
    (reason : Text)
    → (is_success (failed_verification reason) ≡ false)
      × (is_success (policy_required_verification reason) ≡ false)
      × (is_success (source_unavailable_verification reason) ≡ false)
      × (safe_reason (failed_verification reason) ≢ [])
      × (safe_reason (policy_required_verification reason) ≢ [])
      × (safe_reason (source_unavailable_verification reason) ≢ [])
unfolding is_success safe_reason credential_result failed_verification policy_required_verification
    source_unavailable_verification lit text_beq
refusals [] = ground arith
refusals (c ∷ s) = ground arith
