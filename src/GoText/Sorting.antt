-- ===== src/GoText/Sorting.antt =====
-- `sort.Strings`: the order of bytes, by insertion. Every sort of texts gives the same list.
use authrim_wordwarden.Prelude.{
  ◌≡◌, refl, Bool, true, false, List, [], ◌∷◌, Text, All, arith, ltb, eqb, ◌||◌, ◌&&◌, inl, inr,
  Bool-cases,
}

-- `s <= t`
unfoldable pub text_le : Text → Text → Bool
text_le [] t = true
text_le (a ∷ s) [] = false
text_le (a ∷ s) (b ∷ t) = ltb a b || (eqb a b && text_le s t)

unfoldable pub insert_text : Text → List Text → List Text
insert_text x [] = x ∷ []
insert_text x (y ∷ ys) = elim (text_le x y) [ true ↦ x ∷ y ∷ ys | false ↦ y ∷ insert_text x ys ]

unfoldable pub sort_texts : List Text → List Text
unfolding insert_text
sort_texts [] = []
sort_texts (x ∷ xs) = insert_text x (sort_texts xs)

pub text_le_total : (s t : Text) → text_le s t ≡ false → text_le t s ≡ true
unfolding text_le
text_le_total [] t h = cc
text_le_total (a ∷ s) [] h = refl
text_le_total (a ∷ s) (b ∷ t) h = ground (arith, text_le_total s t)

-- Each item is no greater than the next.
abbrev pub IsSorted : List Text → Type 0
IsSorted [] = Unit
IsSorted (x ∷ []) = Unit
IsSorted (x ∷ y ∷ ys) = (text_le x y ≡ true) × IsSorted (y ∷ ys)

insert_text-IsSorted : (x : Text) (ys : List Text) → IsSorted ys → IsSorted (insert_text x ys)
unfolding insert_text
insert_text-IsSorted x [] h = tt
insert_text-IsSorted x (y ∷ []) h = elim (Bool-cases (text_le x y)) [
  | inl le ↦ rw (le, insert_text) (le, tt)
  | inr gt ↦ rw (gt, insert_text) (text_le_total x y gt, tt)
]
insert_text-IsSorted x (y ∷ z ∷ ys) (h, hs) =
    let ih = insert_text-IsSorted x (z ∷ ys) hs in ground (arith, ih, text_le_total x y)

pub sort_texts-IsSorted : (xs : List Text) → IsSorted (sort_texts xs)
unfolding sort_texts
sort_texts-IsSorted [] = tt
sort_texts-IsSorted (x ∷ xs) = insert_text-IsSorted x (sort_texts xs) (sort_texts-IsSorted xs)

module _ {ℓ} (P : Text → Type ℓ) where
  insert_text-All : (x : Text) (ys : List Text) → P x → All P ys → All P (insert_text x ys)
  unfolding insert_text
  insert_text-All x [] p h = (p, tt)
  insert_text-All x (y ∷ ys) p (q, h) = elim (Bool-cases (text_le x y)) [
    | inl le ↦ rw (le, insert_text) (p, (q, h))
    | inr gt ↦ rw (gt, insert_text) (q, insert_text-All x ys p h)
  ]

  pub sort_texts-All : (xs : List Text) → All P xs → All P (sort_texts xs)
  unfolding sort_texts
  sort_texts-All [] h = tt
  sort_texts-All (x ∷ xs) (p, h) = insert_text-All x (sort_texts xs) p (sort_texts-All xs h)
