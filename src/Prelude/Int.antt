-- ===== src/Prelude/Int.antt =====
-- Go's signed integers: `negsuc n` is -(n + 1).
use Prim.Native.Nat.{ℕ, suc, ◌-◌, ◌*◌, ◌%◌}
use mathlib.Core.Path.{◌≡◌}
use mathlib.Core.Bool.{Bool, true, false}
use authrim_wordwarden.Prelude.Tests.{ltb, leb, if◌then◌else◌}

pub data ℤ : Type 0 where
  pos : ℕ → ℤ
  negsuc : ℕ → ℤ

-- `a <= b`
abbrev pub le_int : ℤ → ℤ → Bool
le_int (pos a) (pos b) = leb a b
le_int (pos a) (negsuc b) = false
le_int (negsuc a) (pos b) = true
le_int (negsuc a) (negsuc b) = leb b a

-- `a < b`
abbrev pub lt_int : ℤ → ℤ → Bool
lt_int (pos a) (pos b) = ltb a b
lt_int (pos a) (negsuc b) = false
lt_int (negsuc a) (pos b) = true
lt_int (negsuc a) (negsuc b) = ltb b a

abbrev pub IsPositive : ℤ → Type 0
IsPositive z = le_int z (pos 0) ≡ false

-- The integer that a 64-bit pattern stands for, in two's complement.
abbrev pub of_word : ℕ → ℤ
of_word w = if ltb w 0x8000000000000000 then pos w else negsuc (0xffffffffffffffff - w)

-- `a * k` on int64 for a factor `k` that is not negative, with its wrap-around.
unfoldable pub mul_int : ℤ → ℕ → ℤ
mul_int (pos n) k = of_word ((n * k) % 0x10000000000000000)
mul_int (negsuc n) k =
    of_word ((0x10000000000000000 - (suc n * k) % 0x10000000000000000) % 0x10000000000000000)
