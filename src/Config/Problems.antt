-- ===== src/Config/Problems.antt =====
-- The problems that internal/ports/config/config.go collects: those of tests, of lists of such, of
-- the items of a list that is numbered.
use authrim_wordwarden.Prelude.{
  ℕ, zero, suc, ◌+◌, ◌/◌, ◌%◌, ◌≡◌, ◌↔◌, refl, Bool, true, false, List, [], ◌∷◌, ◌++◌, Text, lit,
  if◌then◌else◌, ltb, All, arith, Bool-cases, inl, inr,
}

-- `%d` for a number that is not negative.
unfoldable pub digits : ℕ → ℕ → Text
digits zero n = []
digits (suc rounds) n = elim (ltb n 10) [
  | true ↦ (b'0' + n) ∷ []
  | false ↦ digits rounds (n / 10) ++ (b'0' + n % 10) ∷ []
]

unfoldable pub decimal : ℕ → Text
unfolding digits
decimal n = digits (suc n) n

-- `prefix[i]`
unfoldable pub numbered : Text → ℕ → Text
unfolding decimal
numbered prefix i = prefix ++ lit "[" ++ (decimal i ++ lit "]")

-- The texts of the tests that are met, in their order.
unfoldable pub problems_of : List (Bool × Text) → List Text
problems_of [] = []
problems_of ((test, text) ∷ rest) =
    let others = problems_of rest in if test then text ∷ others else others

unfoldable pub concat : List (List Text) → List Text
concat [] = []
concat (texts ∷ rest) = texts ++ concat rest

pub problems_of_nil :
    (tests : List (Bool × Text)) → (problems_of tests ≡ []) ↔ All (λ t. t.0 ≡ false) tests
unfolding problems_of
problems_of_nil [] = (λ h. tt, λ h. refl)
problems_of_nil ((test, text) ∷ rest) = elim (Bool-cases test) [
  | inl met ↦ (λ h. absurd (ground (arith, met)), λ h. absurd (ground arith))
  | inr unmet ↦
      rw unmet (λ h. (refl, (problems_of_nil rest).0 h), λ h. (problems_of_nil rest).1 h.1)
]

pub append_nil_parts : (xs ys : List Text) → xs ++ ys ≡ [] → (xs ≡ []) × (ys ≡ [])
append_nil_parts [] ys h = (refl, h)
append_nil_parts (x ∷ xs) ys h = absurd (cc h)

pub concat_nil : (parts : List (List Text)) → (concat parts ≡ []) ↔ All (λ p. p ≡ []) parts
unfolding concat
concat_nil [] = (λ h. tt, λ h. refl)
concat_nil (part ∷ rest) = (
  λ h. (
    (append_nil_parts part (concat rest) h).0,
    (concat_nil rest).0 (append_nil_parts part (concat rest) h).1,
  ),
  λ h. rw (h.0, (concat_nil rest).1 h.1) refl,
)
