-- ===== src/Commands/Parts.antt =====
-- The parts of versions in their order, of internal/app/command.go.
use authrim_wordwarden.Prelude.{
  zero, suc, ◌≡◌, refl, true, false, List, [], ◌∷◌, ℤ, pos, negsuc, le_int, lt_int, arith,
  if◌then◌else◌,
}
use authrim_wordwarden.Commands.Versions.{compare_parts}

-- The result of the same comparison from the other side.
abbrev pub reversed : ℤ → ℤ
reversed (pos zero) = pos 0
reversed (pos (suc n)) = negsuc n
reversed (negsuc n) = pos (suc n)

-- Not the newer.
abbrev pub IsAtMost : ℤ → Type 0
IsAtMost n = le_int n (pos 0) ≡ true

lt_int_asymm : (m n : ℤ) → lt_int m n ≡ true → lt_int n m ≡ false
lt_int_asymm (pos m) (pos n) h = ground arith
lt_int_asymm (pos m) (negsuc n) h = cc
lt_int_asymm (negsuc m) (pos n) h = refl
lt_int_asymm (negsuc m) (negsuc n) h = ground arith

pub lt_int_irrefl : (m : ℤ) → lt_int m m ≡ false
lt_int_irrefl (pos m) = ground arith
lt_int_irrefl (negsuc m) = ground arith

pub lt_int_connex : (m n : ℤ) → lt_int m n ≡ false → lt_int n m ≡ false → m ≡ n
lt_int_connex (pos m) (pos n) h k = ground arith
lt_int_connex (pos m) (negsuc n) h k = ground arith
lt_int_connex (negsuc m) (pos n) h k = ground arith
lt_int_connex (negsuc m) (negsuc n) h k = ground arith

lt_int_trans : (m n k : ℤ) → lt_int m n ≡ true → lt_int n k ≡ true → lt_int m k ≡ true
lt_int_trans (pos m) (pos n) (pos k) h l = ground arith
lt_int_trans (pos m) (pos n) (negsuc k) h l = ground arith
lt_int_trans (pos m) (negsuc n) k h l = ground arith
lt_int_trans (negsuc m) (pos n) (pos k) h l = refl
lt_int_trans (negsuc m) (pos n) (negsuc k) h l = ground arith
lt_int_trans (negsuc m) (negsuc n) (pos k) h l = refl
lt_int_trans (negsuc m) (negsuc n) (negsuc k) h l = ground arith

-- The comparison of two parts, and of what is behind them.
abbrev pub by_parts : ℤ → ℤ → ℤ → ℤ
by_parts x y rest = if lt_int x y then negsuc 0 else if lt_int y x then pos 1 else rest

by_parts-reversed : (x y r : ℤ) → by_parts y x (reversed r) ≡ reversed (by_parts x y r)
by_parts-reversed x y r = ground (arith, lt_int_asymm x y)

by_parts_trans :
    (x y z r s t : ℤ)
    → (IsAtMost r → IsAtMost s → IsAtMost t)
    → IsAtMost (by_parts x y r)
    → IsAtMost (by_parts y z s)
    → IsAtMost (by_parts x z t)
by_parts_trans x y z r s t next h k = ground (
  arith,
  lt_int_trans x y z,
  lt_int_connex x y,
  lt_int_connex y z,
  lt_int_asymm x y,
  lt_int_asymm y z,
  lt_int_asymm x z,
  lt_int_irrefl x,
  next,
)

pub compare_parts_refl : (a : List ℤ) → compare_parts a a ≡ pos 0
unfolding compare_parts
compare_parts_refl [] = refl
compare_parts_refl (n ∷ a) = ground (arith, compare_parts_refl a, lt_int_irrefl n)

pub compare_parts-reversed : (a b : List ℤ) → compare_parts b a ≡ reversed (compare_parts a b)
unfolding compare_parts
compare_parts-reversed [] [] = refl
compare_parts-reversed (x ∷ a) [] =
    ground (arith, compare_parts-reversed a [], lt_int_asymm x (pos 0))
compare_parts-reversed [] (y ∷ b) =
    ground (arith, compare_parts-reversed [] b, lt_int_asymm y (pos 0))
compare_parts-reversed (x ∷ a) (y ∷ b) =
    ground (arith, compare_parts-reversed a b, lt_int_asymm x y)

pub compare_parts_trans :
    (a b c : List ℤ)
    → IsAtMost (compare_parts a b)
    → IsAtMost (compare_parts b c)
    → IsAtMost (compare_parts a c)
unfolding compare_parts
compare_parts_trans [] [] c h k = k
compare_parts_trans [] (y ∷ b) [] h k = refl
compare_parts_trans [] (y ∷ b) (z ∷ c) h k =
    by_parts_trans (pos 0) y z _ _ _ (compare_parts_trans [] b c) h k
compare_parts_trans (x ∷ a) [] [] h k = h
compare_parts_trans (x ∷ a) [] (z ∷ c) h k =
    by_parts_trans x (pos 0) z _ _ _ (compare_parts_trans a [] c) h k
compare_parts_trans (x ∷ a) (y ∷ b) [] h k =
    by_parts_trans x y (pos 0) _ _ _ (compare_parts_trans a b []) h k
compare_parts_trans (x ∷ a) (y ∷ b) (z ∷ c) h k =
    by_parts_trans x y z _ _ _ (compare_parts_trans a b c) h k
