-- ===== src/Secrets/References.antt =====
-- Which references internal/ports/secrets/secrets.go accepts.
use authrim_wordwarden.Prelude.{
  ◌≡◌, ◌≢◌, ◌↔◌, ◌⊎◌, refl, inl, inr, false, [], ◌∷◌, ◌++◌, some, Text, lit, text_eq, text_iff,
  is_nil, arith, Bool-cases,
}
use authrim_wordwarden.GoText.{contains_byte, cut}
use authrim_wordwarden.GoText.Cutting.{cut_found, cut-append, cut-none}
use authrim_wordwarden.Secrets.{SecretRef, reference, parse_parts, parse_ref}

-- The parts of a reference: a known scheme, a colon and a name.
pub record IsReference (raw : Text) (r : SecretRef) : Type 0 where
  pub kept : r.raw ≡ raw
  pub known : (r.scheme ≡ lit "env") ⊎ (r.scheme ≡ lit "file")
  pub named : r.name ≢ []
  pub whole : raw ≡ r.scheme ++ b':' ∷ r.name

parse_ref_sound : (raw : Text) (r : SecretRef) → parse_ref raw ≡ reference r → IsReference raw r
unfolding parse_ref parse_parts
parse_ref_sound raw r h = elim (Bool-cases (contains_byte b':' raw)) [
  | inr no_colon ↦ absurd (ground (arith, cut-none b':' raw no_colon))
  | inl colon ↦
      let (scheme, name, found, whole, clean) = cut_found b':' raw colon in
      record {
        kept = ground (arith, found);
        known = ground (arith, found, text_iff scheme (lit "env"), text_iff scheme (lit "file"));
        named = ground (arith, found);
        whole = ground (arith, found, whole);
      }
]

known_clean :
    (scheme : Text)
    → (scheme ≡ lit "env") ⊎ (scheme ≡ lit "file")
    → (contains_byte b':' scheme ≡ false) × (is_nil scheme ≡ false)
unfolding contains_byte lit
known_clean scheme (inl e) = rw e (refl, refl)
known_clean scheme (inr e) = rw e (refl, refl)

parse_ref_complete : (raw : Text) (r : SecretRef) → IsReference raw r → parse_ref raw ≡ reference r
unfolding parse_ref parse_parts cut
parse_ref_complete raw r i =
    let (clean, filled) = known_clean r.scheme i.known in
    let found : cut b':' raw ≡ some (r.scheme, r.name) =
      rw i.whole (cut-append b':' r.scheme r.name clean) in
    let not_empty : is_nil raw ≡ false = ground (arith, found) in
    ground (
      arith,
      found,
      filled,
      not_empty,
      i.named,
      i.known,
      i.kept,
      text_iff r.scheme (lit "env"),
      text_iff r.scheme (lit "file"),
    )

-- A reference is accepted exactly when it is the scheme "env" or "file", a colon and a name that is
-- not empty and may hold further colons; the parts and the reference itself are returned.
pub parse_ref_iff : (raw : Text) (r : SecretRef) → (parse_ref raw ≡ reference r) ↔ IsReference raw r
parse_ref_iff raw r = (parse_ref_sound raw r, parse_ref_complete raw r)
