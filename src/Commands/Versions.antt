-- ===== src/Commands/Versions.antt =====
-- Versions and the ranges of advisories, of internal/app/command.go.
use authrim_wordwarden.Prelude.{
  ℕ, ◌+◌, ◌-◌, ◌*◌, Bool, true, false, ◌&&◌, ◌||◌, List, [], ◌∷◌, Option, none, some, Text, lit,
  text_eq, ◌==◌, is_nil, map, if◌then◌else◌, eqb, leb, ltb, ℤ, pos, negsuc, le_int, lt_int,
}
use authrim_wordwarden.GoText.{Unicode, trim_space, is_ascii, is_space, cut}
use authrim_wordwarden.GoText.Encoding.{has_prefix, has_suffix, drop_last, trim_prefix}
use authrim_wordwarden.GoText.Splitting.{split}

-- `wide_scan` is `fmt.Sscanf` with "%d" on text that is not ASCII, 0 where it fails.
pub record VersionTools : Type 0 where
  pub unicode : Unicode
  pub wide_scan : Text → ℤ

-- A line's spaces.
unfoldable pub skip_spaces : Text → Text
skip_spaces [] = []
skip_spaces (c ∷ s) = elim (is_space c && leb 11 c || eqb c 9) [
  | true ↦ skip_spaces s
  | false ↦ c ∷ s
]

abbrev digits_so_far : Option ℕ → ℕ
digits_so_far none = 0
digits_so_far (some n) = n

-- The number that digits give, after those read so far. `none` if there is no digit.
unfoldable pub scan_digits : Option ℕ → Text → Option ℕ
scan_digits read [] = read
scan_digits read (c ∷ s) = elim (leb b'0' c && leb c b'9') [
  | false ↦ read
  | true ↦ scan_digits (some (digits_so_far read * 10 + (c - b'0'))) s
]

-- A number as an int64, 0 where there is none or it does not fit.
unfoldable pub signed : Bool → Option ℕ → ℤ
signed negative none = pos 0
signed false (some n) = if ltb n 0x8000000000000000 then pos n else pos 0
signed true (some n) =
    if eqb n 0 then pos 0 else if leb n 0x8000000000000000 then negsuc (n - 1) else pos 0

-- A sign, then digits.
unfoldable pub scan_signed : Text → ℤ
scan_signed [] = pos 0
scan_signed (c ∷ s) =
    if eqb c b'-'
    then signed true (scan_digits none s)
    else if eqb c b'+'
    then signed false (scan_digits none s)
    else signed false (scan_digits none (c ∷ s))

unfoldable pub compare_parts : List ℤ → List ℤ → ℤ
compare_parts [] [] = pos 0
compare_parts (a ∷ left) [] =
    let rest = compare_parts left [] in
    if lt_int a (pos 0) then negsuc 0 else if lt_int (pos 0) a then pos 1 else rest
compare_parts [] (b ∷ right) =
    let rest = compare_parts [] right in
    if lt_int (pos 0) b then negsuc 0 else if lt_int b (pos 0) then pos 1 else rest
compare_parts (a ∷ left) (b ∷ right) =
    let rest = compare_parts left right in
    if lt_int a b then negsuc 0 else if lt_int b a then pos 1 else rest

-- What stands before the first hyphen.
abbrev pub core_of : Text → Text
core_of value = elim (cut b'-' value) as (λ r. Text) [ none ↦ value | some (core, rest) ↦ core ]

module _ (tools : VersionTools) where
  unfoldable pub scan_int : Text → ℤ
  scan_int s = if is_ascii s then scan_signed (skip_spaces s) else tools.wide_scan s

  unfoldable pub version_parts : Text → List ℤ
  version_parts value = map scan_int (split b'.' (core_of value))

  unfoldable pub compare_versions : Text → Text → ℤ
  compare_versions left right = compare_parts (version_parts left) (version_parts right)

  unfoldable pub normalize_version : Text → Text
  normalize_version value = trim_prefix (trim_space tools.unicode value) (lit "v")

  -- The loop over the operators, whose result is `none` where no operator stands first.
  unfoldable pub range_matches : Text → Text → Option Bool
  range_matches candidate current =
      let compared = λ (operator : Text).
        compare_versions current (normalize_version (trim_prefix candidate operator)) in
      if has_prefix candidate (lit "<=")
      then some (le_int (compared (lit "<=")) (pos 0))
      else if has_prefix candidate (lit ">=")
      then some (le_int (pos 0) (compared (lit ">=")))
      else if has_prefix candidate (lit "<")
      then some (lt_int (compared (lit "<")) (pos 0))
      else if has_prefix candidate (lit ">")
      then some (lt_int (pos 0) (compared (lit ">")))
      else none

  -- Behind the normalisation.
  unfoldable pub normalized_matches : Text → Text → Bool
  normalized_matches candidate current =
      if is_nil candidate
      then false
      else if candidate == lit "*" || candidate == current
      then true
      else elim (range_matches candidate current) [
        | some found ↦ found
        | none ↦
            if has_suffix candidate (lit ".*")
            then has_prefix current (drop_last candidate)
            else false
      ]

  unfoldable pub advisory_version_matches : Text → Text → Bool
  advisory_version_matches candidate current =
      normalized_matches (normalize_version candidate) current

  unfoldable pub any_matches : List Text → Text → Bool
  any_matches [] current = false
  any_matches (affected ∷ rest) current =
      advisory_version_matches affected current || any_matches rest current
