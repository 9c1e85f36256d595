-- ===== src/Storm/Policy.antt =====
-- The defaults of the storm protection policy, of internal/ports/httpapi/storm.go.
use authrim_wordwarden.Prelude.{ℕ, ◌≡◌, ℤ, IsPositive, arith, ◌<◌}
use authrim_wordwarden.Storm.{StormProtectionPolicy, default_storm_protection_policy, or_default}

pub record IsActive (p : StormProtectionPolicy) : Type 0 where
  pub window : IsPositive p.window_ms
  pub block : IsPositive p.block_ms
  pub malformed : IsPositive p.malformed_request_limit
  pub replay : IsPositive p.replay_limit
  pub directory_error : IsPositive p.directory_error_limit

or_default-IsPositive : (z : ℤ) (n : ℕ) → 0 < n → IsPositive (or_default z n)
or_default-IsPositive z n h = ground arith

pub or_default_of_positive : (z : ℤ) (n : ℕ) → IsPositive z → or_default z n ≡ z
or_default_of_positive z n h = ground arith

pub default-IsActive : (p : StormProtectionPolicy) → IsActive (default_storm_protection_policy p)
unfolding default_storm_protection_policy
default-IsActive p = record {
  window = or_default-IsPositive p.window_ms 10000 (omega arith);
  block = or_default-IsPositive p.block_ms 30000 (omega arith);
  malformed = or_default-IsPositive p.malformed_request_limit 20 (omega arith);
  replay = or_default-IsPositive p.replay_limit 10 (omega arith);
  directory_error = or_default-IsPositive p.directory_error_limit 5 (omega arith);
}

-- The defaults leave no field at zero or below, whatever the configuration gives, and change no
-- policy whose fields are all positive; so applying them twice is applying them once.
pub default_policy-IsActive :
    (p : StormProtectionPolicy)
    → IsActive (default_storm_protection_policy p)
      × (IsActive p → default_storm_protection_policy p ≡ p)
unfolding default_storm_protection_policy
default_policy-IsActive p = (
  default-IsActive p,
  λ a. ground (
    arith,
    or_default_of_positive p.window_ms 10000 a.window,
    or_default_of_positive p.block_ms 30000 a.block,
    or_default_of_positive p.malformed_request_limit 20 a.malformed,
    or_default_of_positive p.replay_limit 10 a.replay,
    or_default_of_positive p.directory_error_limit 5 a.directory_error,
  ),
)
