-- ===== src/Prelude/Distinct.antt =====
-- Lists of texts in which no text is twice, as Go's sets of strings keep them.
use mathlib.Core.Path.{◌≡◌, refl}
use mathlib.Core.Bool.{false, ◌||◌}
use mathlib.Core.List.{List, [], ◌∷◌, ◌++◌}
use native.Mathlib.Omega.{arith}
use authrim_wordwarden.Prelude.Lists.{All}
use authrim_wordwarden.Prelude.Texts.{Text, contains, text_iff}

pub contains-append :
    (name : Text) (xs ys : List Text)
    → contains name (xs ++ ys) ≡ (contains name xs || contains name ys)
unfolding contains
contains-append name [] ys = refl
contains-append name (x ∷ xs) ys = ground (arith, contains-append name xs ys)

-- No item occurs again.
abbrev pub IsDistinct : List Text → Type 0
IsDistinct [] = Unit
IsDistinct (x ∷ xs) = (contains x xs ≡ false) × IsDistinct xs

pub concat-IsDistinct :
    (xs : List Text) (x : Text) → contains x xs ≡ false → IsDistinct xs → IsDistinct (xs ++ x ∷ [])
unfolding contains
concat-IsDistinct [] x h d = (refl, tt)
concat-IsDistinct (y ∷ ys) x h (e, d) = (
  ground (arith, contains-append y ys (x ∷ []), text_iff x y, text_iff y x),
  concat-IsDistinct ys x (ground arith) d,
)

-- No item is among those seen before it, as a loop that collects them finds out.
abbrev pub IsFresh : List Text → List Text → Type 0
IsFresh seen [] = Unit
IsFresh seen (x ∷ xs) = (contains x seen ≡ false) × IsFresh (x ∷ seen) xs

abbrev pub Avoids : List Text → List Text → Type 0
Avoids seen = All (λ x. contains x seen ≡ false)

Avoids-cons :
    (x : Text) (seen xs : List Text)
    → Avoids (x ∷ seen) xs
    → (contains x xs ≡ false) × Avoids seen xs
unfolding contains
Avoids-cons x seen [] h = (refl, tt)
Avoids-cons x seen (y ∷ ys) (h, hs) =
    let ih = Avoids-cons x seen ys hs in
    (ground (arith, ih, text_iff x y, text_iff y x), (ground arith, ih.1))

pub IsFresh-IsDistinct : (seen xs : List Text) → IsFresh seen xs → IsDistinct xs × Avoids seen xs
IsFresh-IsDistinct seen [] h = (tt, tt)
IsFresh-IsDistinct seen (x ∷ xs) (h, hs) =
    let ih = IsFresh-IsDistinct (x ∷ seen) xs hs in
    let avoids = Avoids-cons x seen xs ih.1 in ((avoids.0, ih.0), (h, avoids.1))
