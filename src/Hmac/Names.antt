-- ===== src/Hmac/Names.antt =====
-- The list of signed headers, of internal/adapters/hmac/verifier.go.
use authrim_wordwarden.Prelude.{
  contains, contains-append, IsDistinct, concat-IsDistinct, ◌≡◌, ◌≢◌, refl, ap, ◌∙◌, inl, inr, Bool,
  false, ◌||◌, List, [], ◌∷◌, Text, text_eq, text_beq, text_iff, ◌==◌, arith, Bool-cases,
}
use authrim_wordwarden.GoText.{Unicode, trim_space, to_lower}
use authrim_wordwarden.GoText.Splitting.{split}
use authrim_wordwarden.GoText.Sorting.{
  sort_texts, insert_text, text_le, IsSorted, sort_texts-IsSorted,
}
use authrim_wordwarden.Hmac.Headers.{add_name, collect, parse_signed_headers}

contains-insert_text :
    (name x : Text) (ys : List Text)
    → contains name (insert_text x ys) ≡ (x == name || contains name ys)
unfolding contains insert_text
contains-insert_text name x [] = refl
contains-insert_text name x (y ∷ ys) = ground (arith, contains-insert_text name x ys)

contains-sort_texts :
    (name : Text) (xs : List Text) → contains name (sort_texts xs) ≡ contains name xs
unfolding contains sort_texts
contains-sort_texts name [] = refl
contains-sort_texts name (x ∷ xs) =
    contains-insert_text name x (sort_texts xs)
    ∙ ap (λ b. x == name || b) (contains-sort_texts name xs)

insert_text-IsDistinct :
    (x : Text) (ys : List Text)
    → contains x ys ≡ false
    → IsDistinct ys
    → IsDistinct (insert_text x ys)
unfolding insert_text contains
insert_text-IsDistinct x [] h d = (refl, tt)
insert_text-IsDistinct x (y ∷ ys) h (e, d) = elim (Bool-cases (text_le x y)) [
  | inl le ↦ rw (le, insert_text) (h, (e, d))
  | inr gt ↦
      rw (gt, insert_text)
        (
          ground (arith, contains-insert_text y x ys, text_iff x y, text_iff y x),
          insert_text-IsDistinct x ys (ground arith) d,
        )
]

sort_texts-IsDistinct : (xs : List Text) → IsDistinct xs → IsDistinct (sort_texts xs)
unfolding sort_texts
sort_texts-IsDistinct [] d = tt
sort_texts-IsDistinct (x ∷ xs) (h, d) =
    insert_text-IsDistinct x (sort_texts xs) (contains-sort_texts x xs ∙ h)
      (sort_texts-IsDistinct xs d)

add_name-IsDistinct :
    (headers : List Text) (name : Text) → IsDistinct headers → IsDistinct (add_name headers name)
unfolding add_name
add_name-IsDistinct headers name d = ground (arith, concat-IsDistinct headers name)

contains-add_name :
    (name : Text) (headers : List Text) (x : Text)
    → name ≢ []
    → contains name (add_name headers x) ≡ (contains name headers || x == name)
unfolding add_name contains text_beq
contains-add_name [] headers x h = absurd (h refl)
contains-add_name (c ∷ s) headers [] h = ground arith
contains-add_name (c ∷ s) headers (d ∷ t) h =
    ground (arith, contains-append (c ∷ s) headers ((d ∷ t) ∷ []), text_iff (d ∷ t) (c ∷ s))

contains_nil-add_name :
    (headers : List Text) (x : Text)
    → contains [] headers ≡ false
    → contains [] (add_name headers x) ≡ false
unfolding add_name contains text_beq
contains_nil-add_name headers [] h = h
contains_nil-add_name headers (d ∷ t) h = ground (arith, contains-append [] headers ((d ∷ t) ∷ []))

module _ (u : Unicode) where
  -- The name that a part of the raw list stands for.
  abbrev pub name_of : Text → Text
  name_of part = to_lower u (trim_space u part)

  -- Does some part stand for the name?
  unfoldable pub named : Text → List Text → Bool
  named name [] = false
  named name (part ∷ parts) = (name_of part == name) || named name parts

  collect-IsDistinct :
      (headers parts : List Text) → IsDistinct headers → IsDistinct (collect u headers parts)
  unfolding collect
  collect-IsDistinct headers [] d = d
  collect-IsDistinct headers (part ∷ parts) d =
      collect-IsDistinct (add_name headers (name_of part)) parts
        (add_name-IsDistinct headers (name_of part) d)

  contains-collect :
      (name : Text) (headers parts : List Text)
      → name ≢ []
      → contains name (collect u headers parts) ≡ (contains name headers || named name parts)
  unfolding collect named
  contains-collect name headers [] h = ground arith
  contains-collect name headers (part ∷ parts) h = ground (
    arith,
    contains-collect name (add_name headers (name_of part)) parts h,
    contains-add_name name headers (name_of part) h,
  )

  contains_nil-collect :
      (headers parts : List Text)
      → contains [] headers ≡ false
      → contains [] (collect u headers parts) ≡ false
  unfolding collect
  contains_nil-collect headers [] h = h
  contains_nil-collect headers (part ∷ parts) h =
      contains_nil-collect (add_name headers (name_of part)) parts
        (contains_nil-add_name headers (name_of part) h)

-- The signed headers that a raw list gives are sorted and distinct, none is empty, and they are
-- exactly the names, trimmed and in small letters, of the list's parts between semicolons.
pub parse_signed_headers_lem :
    (u : Unicode) (raw : Text)
    → IsSorted (parse_signed_headers u raw)
      × IsDistinct (parse_signed_headers u raw)
      × (contains [] (parse_signed_headers u raw) ≡ false)
      × ((name : Text)
          → name ≢ []
          → contains name (parse_signed_headers u raw) ≡ named u name (split b';' raw))
unfolding parse_signed_headers contains
parse_signed_headers_lem u raw =
    let headers = collect u [] (split b';' raw) in
    (
      sort_texts-IsSorted headers,
      sort_texts-IsDistinct headers (collect-IsDistinct u [] (split b';' raw) tt),
      contains-sort_texts [] headers ∙ contains_nil-collect u [] (split b';' raw) refl,
      λ name h.
          contains-sort_texts name headers ∙ (contains-collect u name [] (split b';' raw) h ∙ refl),
    )
