-- ===== src/GoText.antt =====
-- Packages strings, sort, net/url, encoding/hex and net/textproto of Go's standard library, as the
-- program uses them, over bytes. What depends on the tables of Unicode is exact here on ASCII
-- text; on any other text it is a field of `Unicode`.
pub mod Splitting
pub mod Sorting
pub mod Cutting
pub mod Encoding
pub mod Escaping
pub mod Reordering
use authrim_wordwarden.Prelude.{
  ℕ, ◌+◌, ◌-◌, ◌/◌, ◌%◌, Bool, true, false, not, ◌&&◌, ◌||◌, List, [], ◌∷◌, ◌++◌, map, Option, none,
  some, if◌then◌else◌, eqb, leb, ltb, Text, all, text_eq, ◌==◌,
}

-- The functions of package strings on text that is not ASCII.
pub record Unicode : Type 0 where
  pub wide_lower : Text → Text
  pub wide_trim : Text → Text
  pub wide_fields : Text → List Text
  pub wide_fold : Text → Text → Bool

unfoldable pub is_ascii : Text → Bool
is_ascii = all λ c. ltb c 128

unfoldable pub is_space : ℕ → Bool
is_space c = (leb 9 c && leb c 13) || eqb c 32

unfoldable pub lower_byte : ℕ → ℕ
lower_byte c = if leb b'A' c && leb c b'Z' then c + 32 else c

unfoldable pub upper_byte : ℕ → ℕ
upper_byte c = if leb b'a' c && leb c b'z' then c - 32 else c

unfoldable pub drop_spaces : Text → Text
drop_spaces [] = []
drop_spaces (c ∷ s) = elim (is_space c) [ true ↦ drop_spaces s | false ↦ c ∷ s ]

-- Cuts the spaces at the end.
unfoldable pub drop_spaces_right : Text → Text
drop_spaces_right [] = []
drop_spaces_right (c ∷ s) = elim (drop_spaces_right s) [
  | [] ↦ if is_space c then [] else c ∷ []
  | d ∷ r ↦ c ∷ d ∷ r
]

-- The words of a text, read from the left with the word begun so far.
unfoldable pub words_from : Text → Text → List Text
words_from [] [] = []
words_from (d ∷ word) [] = (d ∷ word) ∷ []
words_from [] (c ∷ s) = elim (is_space c) [ true ↦ words_from [] s | false ↦ words_from (c ∷ []) s ]
words_from (d ∷ word) (c ∷ s) = elim (is_space c) [
  | true ↦ (d ∷ word) ∷ words_from [] s
  | false ↦ words_from (d ∷ word ++ c ∷ []) s
]

-- `strings.Contains(s, sep)` for a separator of one byte.
unfoldable pub contains_byte : ℕ → Text → Bool
contains_byte sep [] = false
contains_byte sep (c ∷ s) = eqb c sep || contains_byte sep s

-- `strings.Cut(s, sep)` for a separator of one byte; `none` if it does not occur.
unfoldable pub cut : ℕ → Text → Option (Text × Text)
cut sep [] = none
cut sep (c ∷ s) = elim (eqb c sep) [
  | true ↦ some ([], s)
  | false ↦ elim (cut sep s) [ none ↦ none | some (front, back) ↦ some (c ∷ front, back) ]
]

module _ (u : Unicode) where
  unfoldable pub to_lower : Text → Text
  to_lower s = if is_ascii s then map lower_byte s else u.wide_lower s

  unfoldable pub trim_space : Text → Text
  trim_space s = if is_ascii s then drop_spaces_right (drop_spaces s) else u.wide_trim s

  unfoldable pub fields : Text → List Text
  fields s = if is_ascii s then words_from [] s else u.wide_fields s

  -- `strings.EqualFold`
  unfoldable pub equal_fold : Text → Text → Bool
  equal_fold s t =
      if is_ascii s && is_ascii t then map lower_byte s == map lower_byte t else u.wide_fold s t
