-- ===== src/GoText/Reordering.antt =====
-- The order that a sort of texts is given does not matter.
use mathlib.Core.List as Lists
use mathlib.Core.List.{foldr, Perm}
use mathlib.Core.List.Perm.{foldr-eq}
use native.Mathlib.Nat.{ℕ_set}
use authrim_wordwarden.Prelude.{◌≡◌, refl, sym, ap, ◌∙◌, true, List, [], ◌∷◌, Text, arith}
use authrim_wordwarden.GoText.Sorting.{text_le, text_le_total, insert_text, sort_texts}

Text-set : IsSet Text
Text-set = Lists.is_set ℕ_set

text_le_antisymm : (s t : Text) → text_le s t ≡ true → text_le t s ≡ true → s ≡ t
unfolding text_le
text_le_antisymm [] [] h k = refl
text_le_antisymm [] (b ∷ t) h k = cc
text_le_antisymm (a ∷ s) [] h k = cc
text_le_antisymm (a ∷ s) (b ∷ t) h k = ground (arith, text_le_antisymm s t)

text_le_trans : (s t r : Text) → text_le s t ≡ true → text_le t r ≡ true → text_le s r ≡ true
unfolding text_le
text_le_trans [] t r h k = refl
text_le_trans (a ∷ s) [] r h k = cc
text_le_trans (a ∷ s) (b ∷ t) [] h k = cc
text_le_trans (a ∷ s) (b ∷ t) (c ∷ r) h k = ground (arith, text_le_trans s t r)

insert_text_comm :
    (x y : Text) (l : List Text) → insert_text x (insert_text y l) ≡ insert_text y (insert_text x l)
unfolding insert_text
insert_text_comm x y [] = ground (arith, text_le_antisymm x y, text_le_total x y, text_le_total y x)
insert_text_comm x y (z ∷ l) = ground (
  arith,
  insert_text_comm x y l,
  text_le_antisymm x y,
  text_le_total x y,
  text_le_total y x,
  text_le_total x z,
  text_le_total y z,
  text_le_trans x y z,
  text_le_trans y x z,
  text_le_trans x z y,
  text_le_trans y z x,
)

foldr-sort_texts : (l : List Text) → sort_texts l ≡ foldr insert_text [] l
unfolding sort_texts
foldr-sort_texts [] = refl
foldr-sort_texts (x ∷ l) = ap (insert_text x) (foldr-sort_texts l)

-- Lists with the same texts are sorted to the same list.
pub sort_texts-perm : (xs ys : List Text) → Perm xs ys → sort_texts xs ≡ sort_texts ys
sort_texts-perm xs ys p =
    foldr-sort_texts xs
    ∙ (foldr-eq (Lists.is_set Text-set) insert_text insert_text_comm p []
        ∙ sym (foldr-sort_texts ys))
