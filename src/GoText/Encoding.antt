-- ===== src/GoText/Encoding.antt =====
-- `strings.ReplaceAll`, `strings.Contains`, `strings.HasPrefix`, `strings.HasSuffix`,
-- `strings.TrimPrefix` and `base64.RawURLEncoding`.
use authrim_wordwarden.Prelude.{
  ℕ, zero, suc, ◌+◌, ◌-◌, ◌*◌, ◌/◌, ◌%◌, Bool, true, false, ◌&&◌, ◌||◌, [], ◌∷◌, ◌++◌, Text,
  if◌then◌else◌, eqb, ltb, length, is_nil, text_eq, ◌==◌,
}

unfoldable pub has_prefix : Text → Text → Bool
has_prefix s [] = true
has_prefix [] (p ∷ prefix) = false
has_prefix (c ∷ s) (p ∷ prefix) = eqb c p && has_prefix s prefix

unfoldable pub drop_bytes : ℕ → Text → Text
drop_bytes zero s = s
drop_bytes (suc n) [] = []
drop_bytes (suc n) (c ∷ s) = drop_bytes n s

unfoldable pub trim_prefix : Text → Text → Text
unfolding has_prefix drop_bytes
trim_prefix s prefix = if has_prefix s prefix then drop_bytes (length prefix) s else s

unfoldable pub has_suffix : Text → Text → Bool
has_suffix [] suffix = is_nil suffix
has_suffix (c ∷ s) suffix = (c ∷ s) == suffix || has_suffix s suffix

unfoldable pub drop_last : Text → Text
drop_last [] = []
drop_last (c ∷ []) = []
drop_last (c ∷ d ∷ s) = c ∷ drop_last (d ∷ s)

-- `strings.Contains(s, part)`
unfoldable pub contains_text : Text → Text → Bool
unfolding has_prefix
contains_text [] part = has_prefix [] part
contains_text (c ∷ s) part = has_prefix (c ∷ s) part || contains_text s part

-- `skip` bytes belong to an occurrence that has been replaced.
unfoldable pub replace_from : ℕ → Text → Text → Text → Text
unfolding has_prefix
replace_from skip old new [] = []
replace_from (suc skip) old new (c ∷ s) = replace_from skip old new s
replace_from zero old new (c ∷ s) =
    let hit = has_prefix (c ∷ s) old in
    (if hit then new else c ∷ []) ++ replace_from (if hit then length old - 1 else 0) old new s

-- For an old text that is not empty.
unfoldable pub replace_all : Text → Text → Text → Text
unfolding replace_from
replace_all s old new = replace_from 0 old new s

abbrev pub digit64 : ℕ → ℕ
digit64 n =
    if ltb n 26
    then b'A' + n
    else if ltb n 52
    then b'a' + (n - 26)
    else if ltb n 62
    then b'0' + (n - 52)
    else if eqb n 62
    then b'-'
    else b'_'

unfoldable pub base64_raw_url : Text → Text
base64_raw_url [] = []
base64_raw_url (a ∷ []) = digit64 (a / 4) ∷ digit64 (a % 4 * 16) ∷ []
base64_raw_url (a ∷ b ∷ []) =
    digit64 (a / 4) ∷ digit64 (a % 4 * 16 + b / 16) ∷ digit64 (b % 16 * 4) ∷ []
base64_raw_url (a ∷ b ∷ c ∷ s) =
    digit64 (a / 4)
    ∷ digit64 (a % 4 * 16 + b / 16)
    ∷ digit64 (b % 16 * 4 + c / 64)
    ∷ digit64 (c % 64)
    ∷ base64_raw_url s
