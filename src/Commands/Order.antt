-- ===== src/Commands/Order.antt =====
-- The order of versions, of internal/app/command.go.
use authrim_wordwarden.Prelude.{
  ◌≡◌, ◌↔◌, ◌⊎◌, refl, ap, Bool-cases, inl, inr, false, Text, ℤ, pos, negsuc,
}
use authrim_wordwarden.GoText.{contains_byte}
use authrim_wordwarden.GoText.Cutting.{cut-none, cut_found}
use authrim_wordwarden.Commands.Versions.{VersionTools, core_of, version_parts, compare_versions}
use authrim_wordwarden.Commands.Parts.{
  reversed, IsAtMost, compare_parts_refl, compare_parts-reversed, compare_parts_trans,
}
use authrim_wordwarden.Commands.Older.{IsOlder, compare_parts_iff, compare_parts_signs}

more_or_IsAtMost : {r : ℤ} → (r ≡ negsuc 0) ⊎ (r ≡ pos 0) ⊎ (r ≡ pos 1) → (r ≡ pos 1) ⊎ IsAtMost r
more_or_IsAtMost (inl less) = inr (rw less refl)
more_or_IsAtMost (inr (inl equal)) = inr (rw equal refl)
more_or_IsAtMost (inr (inr more)) = inl more

chained :
    {r s : ℤ} (t : ℤ)
    → (r ≡ pos 1) ⊎ IsAtMost r
    → (s ≡ pos 1) ⊎ IsAtMost s
    → (IsAtMost r → IsAtMost s → IsAtMost t)
    → (r ≡ pos 1) ⊎ (s ≡ pos 1) ⊎ IsAtMost t
chained t (inl more) k trans = inl more
chained t (inr h) (inl more) trans = inr (inl more)
chained t (inr h) (inr k) trans = inr (inr (trans h k))

core_of_plain : (value : Text) → contains_byte b'-' value ≡ false → core_of value ≡ value
core_of_plain value plain = rw (cut-none b'-' value plain, core_of) refl

core_of_again : (value : Text) → core_of (core_of value) ≡ core_of value
core_of_again value = elim (Bool-cases (contains_byte b'-' value)) [
  | inr plain ↦ ap core_of (core_of_plain value plain)
  | inl hyphen ↦
      let (core, rest, found, whole, clean) = cut_found b'-' value hyphen in
      let is_core : core_of value ≡ core = rw (found, core_of) refl in
      rw is_core (core_of_plain core clean)
]

version_parts-core_of :
    (tools : VersionTools) (value : Text)
    → version_parts tools (core_of value) ≡ version_parts tools value
unfolding version_parts
version_parts-core_of tools value = rw (core_of_again value) refl

-- A version compares as -1 to another exactly when, for the parts of their numbers with zeros behind
-- them, those of the first are less at some place and agree before it. The result is -1, 0 or 1; it
-- is the opposite from the other side; a version compares as 0 to itself; of three versions, the
-- first is at most the third unless it is greater than the second or the second than the third.
-- What stands behind the first hyphen, such as the name of a pre-release, does not count.
pub compare_versions_order :
    (tools : VersionTools) (a b c : Text)
    → ((compare_versions tools a b ≡ negsuc 0)
        ↔ IsOlder (version_parts tools a) (version_parts tools b))
      × ((compare_versions tools a b ≡ negsuc 0)
          ⊎ (compare_versions tools a b ≡ pos 0)
          ⊎ (compare_versions tools a b ≡ pos 1))
      × (compare_versions tools b a ≡ reversed (compare_versions tools a b))
      × (compare_versions tools a a ≡ pos 0)
      × ((compare_versions tools a b ≡ pos 1)
          ⊎ (compare_versions tools b c ≡ pos 1)
          ⊎ IsAtMost (compare_versions tools a c))
      × (compare_versions tools (core_of a) b ≡ compare_versions tools a b)
unfolding compare_versions
compare_versions_order tools a b c =
    let parts = version_parts tools in
    (
      compare_parts_iff (parts a) (parts b),
      compare_parts_signs (parts a) (parts b),
      compare_parts-reversed (parts a) (parts b),
      compare_parts_refl (parts a),
      chained (compare_versions tools a c)
          (more_or_IsAtMost (compare_parts_signs (parts a) (parts b)))
          (more_or_IsAtMost (compare_parts_signs (parts b) (parts c)))
          (compare_parts_trans (parts a) (parts b) (parts c)),
      rw (version_parts-core_of tools a) refl,
    )
