-- ===== src/GoText/Splitting.antt =====
-- `strings.Split` at one byte and `strings.Join`.
use authrim_wordwarden.GoText.{contains_byte, is_space, words_from}
use authrim_wordwarden.Prelude.{
  ℕ, ◌≡◌, ◌≢◌, refl, false, true, Bool-cases, inl, inr, List, [], ◌∷◌, ◌++◌, eqb, Text, All,
  All-append, arith, append_assoc, ap, ◌∙◌,
}

unfoldable pub split : ℕ → Text → List Text
split sep [] = [] ∷ []
split sep (c ∷ s) = elim (eqb c sep) [
  | true ↦ [] ∷ split sep s
  | false ↦ elim (split sep s) [ [] ↦ (c ∷ []) ∷ [] | part ∷ parts ↦ (c ∷ part) ∷ parts ]
]

unfoldable pub join : Text → List Text → Text
join sep [] = []
join sep (part ∷ []) = part
join sep (part ∷ more ∷ parts) = part ++ (sep ++ join sep (more ∷ parts))

abbrev pub Lacks : ℕ → Text → Type 0
Lacks sep = All (λ c. c ≢ sep)

split_plain : (sep : ℕ) (s : Text) → Lacks sep s → split sep s ≡ s ∷ []
unfolding split
split_plain sep [] h = refl
split_plain sep (c ∷ s) (h, hs) = ground (arith, split_plain sep s hs)

split_at : (sep : ℕ) (s t : Text) → Lacks sep s → split sep (s ++ sep ∷ t) ≡ s ∷ split sep t
unfolding split
split_at sep [] t h = ground arith
split_at sep (c ∷ s) t (h, hs) = ground (arith, split_at sep s t hs)

-- Parts without the separator come back from their join.
pub split-join :
    (sep : ℕ) (part : Text) (parts : List Text)
    → All (Lacks sep) (part ∷ parts)
    → split sep (join (sep ∷ []) (part ∷ parts)) ≡ part ∷ parts
unfolding join
split-join sep part [] (h, hs) = split_plain sep part h
split-join sep part (more ∷ parts) (h, hs) =
    split_at sep part _ h ∙ ap (λ ps. part ∷ ps) (split-join sep more parts hs)

-- The parts of a split do not hold the separator.
pub split-Lacks : (sep : ℕ) (s : Text) → All (Lacks sep) (split sep s)
unfolding split
split-Lacks sep [] = (tt, tt)
split-Lacks sep (c ∷ s) = ground (arith, split-Lacks sep s)

pub join-All {ℓ} :
    (P : ℕ → Type ℓ) (sep : Text) (parts : List Text)
    → All P sep
    → All (All P) parts
    → All P (join sep parts)
unfolding join
join-All P sep [] h k = tt
join-All P sep (part ∷ []) h (k, ks) = k
join-All P sep (part ∷ more ∷ parts) h (k, ks) =
    All-append P part _ k (All-append P sep _ h (join-All P sep (more ∷ parts) h ks))

-- A join among the parts of a join may be written out in place.
pub join-join :
    (sep : Text) (part : Text) (parts : List Text) (next : Text) (rest : List Text)
    → join sep (join sep (part ∷ parts) ∷ next ∷ rest) ≡ join sep (part ∷ (parts ++ next ∷ rest))
unfolding join
join-join sep part [] next rest = refl
join-join sep part (more ∷ parts) next rest =
    simp append_assoc (ap (λ t. part ++ (sep ++ t)) (join-join sep more parts next rest))

pub contains_byte-Lacks : (sep : ℕ) (s : Text) → contains_byte sep s ≡ false → Lacks sep s
unfolding contains_byte
contains_byte-Lacks sep [] h = tt
contains_byte-Lacks sep (c ∷ s) h = (ground arith, contains_byte-Lacks sep s (ground arith))

not_space-ne : (sep c : ℕ) → is_space sep ≡ true → is_space c ≡ false → c ≢ sep
not_space-ne sep c h k e = cc

pub words_from-Lacks :
    (sep : ℕ) (word s : Text)
    → is_space sep ≡ true
    → Lacks sep word
    → All (Lacks sep) (words_from word s)
unfolding words_from
words_from-Lacks sep [] [] h k = tt
words_from-Lacks sep (d ∷ word) [] h k = (k, tt)
words_from-Lacks sep [] (c ∷ s) h k = elim (Bool-cases (is_space c)) [
  | inl space ↦ rw (space, words_from) (words_from-Lacks sep [] s h tt)
  | inr other ↦
      rw (other, words_from) (words_from-Lacks sep (c ∷ []) s h (not_space-ne sep c h other, tt))
]
words_from-Lacks sep (d ∷ word) (c ∷ s) h k = elim (Bool-cases (is_space c)) [
  | inl space ↦ rw (space, words_from) (k, words_from-Lacks sep [] s h tt)
  | inr other ↦
      rw (other, words_from)
        (words_from-Lacks sep (d ∷ (word ++ c ∷ [])) s h
          (k.0, All-append (λ b. b ≢ sep) word (c ∷ []) k.1 (not_space-ne sep c h other, tt)))
]
