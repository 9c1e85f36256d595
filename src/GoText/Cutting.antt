-- ===== src/GoText/Cutting.antt =====
-- What `strings.Cut` finds at one byte.
use authrim_wordwarden.Prelude.{
  ℕ, ◌≡◌, refl, inl, inr, true, false, [], ◌∷◌, ◌++◌, none, some, Text, arith, eqb, Bool-cases,
}
use authrim_wordwarden.GoText.{contains_byte, cut}

pub cut_found :
    (sep : ℕ) (s : Text)
    → contains_byte sep s ≡ true
    → (front : Text) × (back : Text) × (cut sep s ≡ some (front, back))
      × (s ≡ front ++ sep ∷ back)
      × (contains_byte sep front ≡ false)
unfolding cut contains_byte
cut_found sep [] h = cc
cut_found sep (c ∷ s) h = elim (Bool-cases (eqb c sep)) [
  | inl e ↦ ([], s, rw (e, cut) refl, ground arith, refl)
  | inr e ↦
      let (front, back, found, whole, clean) = cut_found sep s (ground arith) in
      (c ∷ front, back, ground (arith, found), ground (arith, whole), ground (arith, clean))
]

pub cut-append :
    (sep : ℕ) (front back : Text)
    → contains_byte sep front ≡ false
    → cut sep (front ++ sep ∷ back) ≡ some (front, back)
unfolding cut contains_byte
cut-append sep [] back h = ground arith
cut-append sep (c ∷ s) back h = ground (arith, cut-append sep s back)

pub cut-none : (sep : ℕ) (s : Text) → contains_byte sep s ≡ false → cut sep s ≡ none
unfolding cut contains_byte
cut-none sep [] h = refl
cut-none sep (c ∷ s) h = ground (arith, cut-none sep s)
