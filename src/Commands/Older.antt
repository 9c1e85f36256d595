-- ===== src/Commands/Older.antt =====
-- Which parts of versions compareVersions of internal/app/command.go calls the older.
use authrim_wordwarden.Prelude.{
  zero, suc, ◌≡◌, ◌≢◌, ◌↔◌, ◌⊎◌, ℕ, refl, Bool-cases, inl, inr, true, List, [], ◌∷◌, ℤ, pos, negsuc,
  lt_int, arith,
}
use authrim_wordwarden.Commands.Versions.{compare_parts}
use authrim_wordwarden.Commands.Parts.{by_parts, lt_int_irrefl, lt_int_connex}

-- The part at a place, and the parts before it. A part that is not there is zero.
unfoldable pub part_at : ℕ → List ℤ → ℤ
part_at i [] = pos 0
part_at zero (x ∷ a) = x
part_at (suc i) (x ∷ a) = part_at i a

unfoldable pub parts_before : ℕ → List ℤ → List ℤ
parts_before zero a = []
parts_before (suc i) [] = pos 0 ∷ parts_before i []
parts_before (suc i) (x ∷ a) = x ∷ parts_before i a

-- Do the parts agree up to a place, where those of the first are less?
abbrev pub IsOlder : List ℤ → List ℤ → Type 0
IsOlder a b =
    (i : ℕ) × (parts_before i a ≡ parts_before i b) × (lt_int (part_at i a) (part_at i b) ≡ true)

parts_before-zero : (i : ℕ) → parts_before i (pos 0 ∷ []) ≡ parts_before i []
unfolding parts_before
parts_before-zero zero = refl
parts_before-zero (suc i) = refl

part_at-zero : (i : ℕ) → part_at i (pos 0 ∷ []) ≡ part_at i []
unfolding part_at
part_at-zero zero = refl
part_at-zero (suc i) = refl

-- A zero part at the end of a list does not count.
IsOlder-zero_left : (b : List ℤ) → IsOlder (pos 0 ∷ []) b ↔ IsOlder [] b
IsOlder-zero_left b = (
  λ (i, same, less). (i, rw (parts_before-zero i) at same, rw (part_at-zero i) at less),
  λ (i, same, less). (i, rw (parts_before-zero i) same, rw (part_at-zero i) less),
)

IsOlder-zero_right : (a : List ℤ) → IsOlder a (pos 0 ∷ []) ↔ IsOlder a []
IsOlder-zero_right a = (
  λ (i, same, less). (i, rw (parts_before-zero i) at same, rw (part_at-zero i) at less),
  λ (i, same, less). (i, rw (parts_before-zero i) same, rw (part_at-zero i) less),
)

by_parts_sound :
    (x y r : ℤ) (a b : List ℤ)
    → (r ≡ negsuc 0 → IsOlder a b)
    → by_parts x y r ≡ negsuc 0
    → IsOlder (x ∷ a) (y ∷ b)
unfolding part_at parts_before
by_parts_sound x y r a b next h = elim (Bool-cases (lt_int x y)) [
  | inl less ↦ (0, refl, less)
  | inr no_less ↦ elim (Bool-cases (lt_int y x)) [
    | inl more ↦ absurd (cc (rw (no_less, more) at h))
    | inr no_more ↦
        let (i, same, less) = next (rw (no_less, no_more) at h) in
        (suc i, cc (lt_int_connex x y no_less no_more, same), less)
  ]
]

by_parts_complete :
    (x y r : ℤ) (a b : List ℤ)
    → (IsOlder a b → r ≡ negsuc 0)
    → IsOlder (x ∷ a) (y ∷ b)
    → by_parts x y r ≡ negsuc 0
unfolding part_at parts_before
by_parts_complete x y r a b next (zero, same, less) = rw less refl
by_parts_complete x y r a b next (suc i, same, less) =
    let equal : x ≡ y = cc same in rw equal (rw (lt_int_irrefl y) (next (i, cc same, less)))

by_parts_iff :
    (x y r : ℤ) (a b : List ℤ)
    → (r ≡ negsuc 0) ↔ IsOlder a b
    → (by_parts x y r ≡ negsuc 0) ↔ IsOlder (x ∷ a) (y ∷ b)
by_parts_iff x y r a b next = (by_parts_sound x y r a b next.0, by_parts_complete x y r a b next.1)

pub compare_parts_iff : (a b : List ℤ) → (compare_parts a b ≡ negsuc 0) ↔ IsOlder a b
unfolding compare_parts
compare_parts_iff [] [] = (λ h. absurd (cc h), λ (i, same, less). absurd (none_less i less))
  where
    none_less : (i : ℕ) → lt_int (part_at i []) (part_at i []) ≢ true
    none_less i less = cc (lt_int_irrefl (part_at i []), less)
compare_parts_iff (x ∷ a) [] =
    let step = by_parts_iff x (pos 0) _ a [] (compare_parts_iff a []) in
    let pad = IsOlder-zero_right (x ∷ a) in (λ h. pad.0 (step.0 h), λ h. step.1 (pad.1 h))
compare_parts_iff [] (y ∷ b) =
    let step = by_parts_iff (pos 0) y _ [] b (compare_parts_iff [] b) in
    let pad = IsOlder-zero_left (y ∷ b) in (λ h. pad.0 (step.0 h), λ h. step.1 (pad.1 h))
compare_parts_iff (x ∷ a) (y ∷ b) = by_parts_iff x y _ a b (compare_parts_iff a b)

-- A comparison gives one of three numbers.
pub compare_parts_signs :
    (a b : List ℤ)
    → (compare_parts a b ≡ negsuc 0) ⊎ (compare_parts a b ≡ pos 0) ⊎ (compare_parts a b ≡ pos 1)
unfolding compare_parts
compare_parts_signs [] [] = inr (inl refl)
compare_parts_signs (x ∷ a) [] = ground (arith, compare_parts_signs a [])
compare_parts_signs [] (y ∷ b) = ground (arith, compare_parts_signs [] b)
compare_parts_signs (x ∷ a) (y ∷ b) = ground (arith, compare_parts_signs a b)
