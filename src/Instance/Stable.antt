-- ===== src/Instance/Stable.antt =====
-- The identity of internal/app/instance.go stays.
use authrim_wordwarden.Prelude.{
  ℕ, ◌+◌, ◌*◌, ◌/◌, ◌%◌, ◌<◌, ◌≡◌, refl, true, false, not, ◌||◌, [], ◌∷◌, ◌++◌, Option, none, some,
  Text, lit, is_nil, length, all, All, arith, Bool-cases, Option-cases, inl, inr,
}
use authrim_wordwarden.GoText.{
  Unicode, is_ascii, is_space, drop_spaces, drop_spaces_right, trim_space,
}
use authrim_wordwarden.GoText.Encoding.{has_prefix, drop_bytes, base64_raw_url, digit64}
use authrim_wordwarden.GoText.Escaping.{is_alnum}
use authrim_wordwarden.Instance.{
  StoredFile, missing, unreadable, content, StateDirectory, is_id_byte, instance_id_matches,
  generate_instance_id, store, on_read, load_or_create_instance_id,
}

abbrev IsIdByte : ℕ → Type 0
IsIdByte c = is_id_byte c ≡ true

abbrev IsByte : ℕ → Type 0
IsByte c = c < 256

digit64-IsIdByte : (n : ℕ) → n < 64 → IsIdByte (digit64 n)
unfolding is_id_byte is_alnum
digit64-IsIdByte n h = ground arith

base64-IsIdByte : (s : Text) → All IsByte s → All IsIdByte (base64_raw_url s)
unfolding base64_raw_url
base64-IsIdByte [] h = tt
base64-IsIdByte (a ∷ []) (p, _) =
    (digit64-IsIdByte (a / 4) (omega arith), (digit64-IsIdByte (a % 4 * 16) (omega arith), tt))
base64-IsIdByte (a ∷ b ∷ []) (p, (q, _)) = (
  digit64-IsIdByte (a / 4) (omega arith),
  (
    digit64-IsIdByte (a % 4 * 16 + b / 16) (omega arith),
    (digit64-IsIdByte (b % 16 * 4) (omega arith), tt),
  ),
)
base64-IsIdByte (a ∷ b ∷ c ∷ s) (p, (q, (r, h))) = (
  digit64-IsIdByte (a / 4) (omega arith),
  (
    digit64-IsIdByte (a % 4 * 16 + b / 16) (omega arith),
    (
      digit64-IsIdByte (b % 16 * 4 + c / 64) (omega arith),
      (digit64-IsIdByte (c % 64) (omega arith), base64-IsIdByte s h),
    ),
  ),
)

length-base64 : (s : Text) → length (base64_raw_url s) ≡ (4 * length s + 2) / 3
unfolding base64_raw_url
length-base64 [] = refl
length-base64 (a ∷ []) = refl
length-base64 (a ∷ b ∷ []) = refl
length-base64 (a ∷ b ∷ c ∷ s) = omega (arith, length-base64 s)

all-IsIdByte : (s : Text) → All IsIdByte s → all is_id_byte s ≡ true
all-IsIdByte [] h = refl
all-IsIdByte (c ∷ s) (h, hs) = ground (arith, all-IsIdByte s hs)

is_ascii-append : (s : Text) → All IsIdByte s → is_ascii (s ++ lit "\n") ≡ true
unfolding is_ascii is_id_byte is_alnum lit
is_ascii-append [] h = refl
is_ascii-append (c ∷ s) (h, hs) = ground (arith, is_ascii-append s hs)

drop_right_newline : (s : Text) → All IsIdByte s → drop_spaces_right (s ++ lit "\n") ≡ s
unfolding drop_spaces_right is_space is_id_byte is_alnum lit
drop_right_newline [] h = refl
drop_right_newline (c ∷ []) (h, hs) = ground arith
drop_right_newline (c ∷ d ∷ s) (h, hs) = ground (arith, drop_right_newline (d ∷ s) hs)

-- A line that starts as an identifier does and has only its bytes.
trim_line :
    (unicode : Unicode) (s : Text)
    → All IsIdByte s
    → trim_space unicode ((lit "wwi_" ++ s) ++ lit "\n") ≡ lit "wwi_" ++ s
unfolding trim_space drop_spaces is_space lit is_id_byte is_alnum
trim_line unicode s h =
    let id : All IsIdByte (lit "wwi_" ++ s) = (refl, (refl, (refl, (refl, h)))) in
    ground (arith, is_ascii-append (lit "wwi_" ++ s) id, drop_right_newline (lit "wwi_" ++ s) id)

generated_matches :
    (s : Text) → length s ≡ 22 → All IsIdByte s → instance_id_matches (lit "wwi_" ++ s) ≡ true
unfolding instance_id_matches has_prefix drop_bytes lit
generated_matches s n h = ground (arith, all-IsIdByte s h)

-- Sixteen bytes, where there are any.
abbrev pub IsRandom : Option Text → Type 0
IsRandom none = Unit
IsRandom (some bytes) = (length bytes ≡ 16) × All IsByte bytes

generated_lem :
    (random : Option Text) (id : Text)
    → IsRandom random
    → generate_instance_id random ≡ some id
    → (s : Text) × (id ≡ lit "wwi_" ++ s) × (length s ≡ 22) × All IsIdByte s
unfolding generate_instance_id
generated_lem none id k h = absurd (cc h)
generated_lem (some bytes) id (n, k) h =
    (base64_raw_url bytes, cc, omega (arith, length-base64 bytes, n), base64-IsIdByte bytes k)

module _ (unicode : Unicode) where
  -- The file's text is an identifier with spaces round it at most.
  IsStored : Text → StateDirectory → Type 0
  IsStored id dir =
      (raw : Text) × (dir.file ≡ content raw)
      × (trim_space unicode raw ≡ id)
      × (instance_id_matches id ≡ true)

  on_read-IsStored :
      (random : Option Text) (file : StoredFile) (dir after : StateDirectory) (id : Text)
      → dir.file ≡ file
      → IsRandom random
      → on_read unicode random file dir ≡ (some id, after)
      → IsStored id after × (after.made ≡ dir.made)
  unfolding on_read store IsStored
  on_read-IsStored random unreadable dir after id e k h = absurd (cc h)
  on_read-IsStored random (content raw) dir after id e k h =
      elim (Bool-cases (instance_id_matches (trim_space unicode raw))) [
        | inr bad ↦ absurd (cc (rw (bad, on_read) at h))
        | inl good ↦ let same = rw (good, on_read) at h in ((raw, cc, cc, cc), cc)
      ]
  on_read-IsStored random missing dir after id e k h =
      elim (Option-cases (generate_instance_id random)) [
        | inl failed ↦ absurd (cc (rw (failed, on_read, store) at h))
        | inr (value, made) ↦ elim (Bool-cases dir.writable) [
          | inr locked ↦ absurd (cc (rw (made, locked, on_read, store) at h))
          | inl open_file ↦
              let same = rw (made, open_file, on_read, store) at h in
              let (s, is, n, bytes) = generated_lem random value k made in
              let trimmed : trim_space unicode (value ++ lit "\n") ≡ value =
                rw is (trim_line unicode s bytes) in
              let matches : instance_id_matches value ≡ true =
                rw is (generated_matches s n bytes) in
              ((value ++ lit "\n", cc, cc, cc), cc)
        ]
      ]

  stored_again :
      (state_dir : Text) (again : Option Text) (dir : StateDirectory) (id : Text)
      → is_nil (trim_space unicode state_dir) ≡ false
      → dir.made ≡ true
      → IsStored id dir
      → load_or_create_instance_id unicode state_dir again dir ≡ (some id, dir)
  unfolding load_or_create_instance_id on_read IsStored
  stored_again state_dir again dir id named made (raw, at_file, trimmed, matches) =
      rw (named, made, at_file) (ground (arith, trimmed, matches))

  -- An identifier that was loaded or made is of the form that is asked for, and a later load from
  -- the directory that is left behind gives the same identifier, whatever random bytes there are
  -- then, and changes nothing.
  pub load_or_create_instance_id_again :
      (state_dir : Text) (random again : Option Text) (dir after : StateDirectory) (id : Text)
      → IsRandom random
      → load_or_create_instance_id unicode state_dir random dir ≡ (some id, after)
      → (instance_id_matches id ≡ true)
        × (load_or_create_instance_id unicode state_dir again after ≡ (some id, after))
  unfolding load_or_create_instance_id IsStored
  load_or_create_instance_id_again state_dir random again dir after id k h =
      elim (Bool-cases (is_nil (trim_space unicode state_dir) || not dir.made)) [
        | inl unusable ↦ absurd (cc (rw (unusable, load_or_create_instance_id) at h))
        | inr usable ↦
            let (stored, made) =
              on_read-IsStored random dir.file dir after id refl k
                (rw (usable, load_or_create_instance_id) at h) in
            (stored.3, stored_again state_dir again after id (ground arith) (ground arith) stored)
      ]
