-- ===== src/Username/Acceptance.antt =====
-- Which user names internal/core/username/username.go accepts.
use authrim_wordwarden.Prelude.{
  ◌≡◌, ◌≢◌, ◌↔◌, ◌⊎◌, inl, inr, true, false, List, [], ◌∷◌, ◌++◌, none, some, Text, lit, text_eq,
  text_iff, arith, Bool-cases,
}
use authrim_wordwarden.GoText.{Unicode, contains_byte, cut, equal_fold}
use authrim_wordwarden.GoText.Cutting.{cut_found, cut-append}
use authrim_wordwarden.Username.{
  UsernameConfig, accepted, detect_format, among, format_allowed, folds_to_one, check_domain,
  validate_domain, normalized, preprocess,
}

abbrev pub OneOf : Text → List Text → Type 0
OneOf x [] = ⊥
OneOf x (y ∷ ys) = (x ≡ y) ⊎ OneOf x ys

abbrev pub FoldsTo : Unicode → Text → List Text → Type 0
FoldsTo u x [] = ⊥
FoldsTo u x (y ∷ ys) = (equal_fold u x y ≡ true) ⊎ FoldsTo u x ys

folds_to_one_iff :
    (u : Unicode) (x : Text) (ys : List Text) → (folds_to_one u x ys ≡ true) ↔ FoldsTo u x ys
unfolding folds_to_one
folds_to_one_iff u x [] = ground arith
folds_to_one_iff u x (y ∷ ys) = ground (arith, folds_to_one_iff u x ys)

-- The formats that the configuration admits: every one where it names none; "upn" admits "email".
abbrev pub IsAllowed : Text → List Text → Type 0
IsAllowed format formats =
    (formats ≡ []) ⊎ (OneOf format formats ⊎ ((format ≡ lit "email") × OneOf (lit "upn") formats))

among_iff :
    (format : Text) (formats : List Text)
    → (among format formats ≡ true)
      ↔ (OneOf format formats ⊎ ((format ≡ lit "email") × OneOf (lit "upn") formats))
unfolding among
among_iff format [] = ground arith
among_iff format (x ∷ xs) = ground (
  arith,
  among_iff format xs,
  text_iff x format,
  text_iff format (lit "email"),
  text_iff x (lit "upn"),
)

format_allowed_iff :
    (format : Text) (formats : List Text)
    → (format_allowed format formats ≡ true) ↔ IsAllowed format formats
unfolding format_allowed
format_allowed_iff format [] = ground arith
format_allowed_iff format (x ∷ xs) = ground (arith, among_iff format (x ∷ xs))

-- The domain behind the first "@" of a name that has one.
pub record HasDomain (u : Unicode) (value : Text) (cfg : UsernameConfig) : Type 0 where
  pub local : Text
  pub domain : Text
  pub split_at : value ≡ local ++ b'@' ∷ domain
  pub first : contains_byte b'@' local ≡ false
  pub filled : domain ≢ []
  pub permitted :
      ((cfg.allowed_domains ≡ []) × (cfg.allowed_upn_suffixes ≡ []))
      ⊎ (FoldsTo u domain cfg.allowed_domains ⊎ FoldsTo u domain cfg.allowed_upn_suffixes)

check_domain_iff :
    (u : Unicode) (local domain : Text) (cfg : UsernameConfig)
    → (check_domain u (some (local, domain)) cfg ≡ none) ↔ (
        (domain ≢ [])
        × (((cfg.allowed_domains ≡ []) × (cfg.allowed_upn_suffixes ≡ []))
            ⊎ (FoldsTo u domain cfg.allowed_domains ⊎ FoldsTo u domain cfg.allowed_upn_suffixes)))
unfolding check_domain
check_domain_iff u local domain cfg = ground (
  arith,
  folds_to_one_iff u domain cfg.allowed_domains,
  folds_to_one_iff u domain cfg.allowed_upn_suffixes,
)

detect_format_iff :
    (value : Text) → (detect_format value ≡ lit "email") ↔ (contains_byte b'@' value ≡ true)
unfolding detect_format lit
detect_format_iff value = ground arith

validate_domain_sound :
    (u : Unicode) (value : Text) (cfg : UsernameConfig)
    → validate_domain u value (detect_format value) cfg ≡ none
    → contains_byte b'@' value ≡ true
    → HasDomain u value cfg
unfolding validate_domain
validate_domain_sound u value cfg h c =
    let (local, domain, found, whole, clean) = cut_found b'@' value c in
    let email = (text_iff _ _).1 ((detect_format_iff value).1 c) in
    let (filled, permitted) =
      (check_domain_iff u local domain cfg).0 (rw (email, found, validate_domain) at h) in
    record {
      local = local;
      domain = domain;
      split_at = whole;
      first = clean;
      filled = filled;
      permitted = permitted;
    }

validate_domain_complete :
    (u : Unicode) (value : Text) (cfg : UsernameConfig)
    → (contains_byte b'@' value ≡ true → HasDomain u value cfg)
    → validate_domain u value (detect_format value) cfg ≡ none
unfolding validate_domain
validate_domain_complete u value cfg f = elim (Bool-cases (contains_byte b'@' value)) [
  | inr none_there ↦
      ground (arith, detect_format_iff value, text_iff (detect_format value) (lit "email"))
  | inl c ↦
      let d = f c in
      let found : cut b'@' value ≡ some (d.local, d.domain) =
        rw d.split_at (cut-append b'@' d.local d.domain d.first) in
      rw ((text_iff _ _).1 ((detect_format_iff value).1 c), found, validate_domain)
        ((check_domain_iff u d.local d.domain cfg).1 (d.filled, d.permitted))
]

-- What is known of an accepted name.
pub record IsAccepted (u : Unicode) (nfkc : Text → Text) (raw : Text) (cfg : UsernameConfig)
    (value format : Text) : Type 0 where
  pub value_is : value ≡ normalized u nfkc raw cfg.normalization
  pub filled : value ≢ []
  pub email : contains_byte b'@' value ≡ true → format ≡ lit "email"
  pub local : contains_byte b'@' value ≡ false → format ≡ lit "local_part"
  pub allowed : IsAllowed format cfg.allowed_formats
  pub domain :
      cfg.normalization.reject_domain_mismatch ≡ true
      → contains_byte b'@' value ≡ true
      → HasDomain u value cfg

preprocess_sound :
    (u : Unicode) (nfkc : Text → Text) (raw : Text) (cfg : UsernameConfig) (value format : Text)
    → preprocess u nfkc raw cfg ≡ accepted value format
    → IsAccepted u nfkc raw cfg value format
unfolding preprocess
preprocess_sound u nfkc raw cfg value format h = record {
  value_is = ground arith;
  filled = ground arith;
  email = unfold detect_format in ground arith;
  local = unfold detect_format in ground arith;
  allowed = (format_allowed_iff format cfg.allowed_formats).0 (ground arith);
  domain = λ on at_sign. validate_domain_sound u value cfg (ground arith) at_sign;
}

-- A user name is accepted, as a value with a format, exactly when the value is the normalisation of
-- the name and is not empty, the format is "email" where the value has an "@" and "local_part"
-- where it has none, the configuration admits the format, and, where mismatched domains are
-- rejected and the value has an "@", what stands behind the first one is not empty and is, up to
-- case, one of the allowed domains or suffixes, if there are any.
pub preprocess_iff :
    (u : Unicode) (nfkc : Text → Text) (raw : Text) (cfg : UsernameConfig) (value format : Text)
    → (preprocess u nfkc raw cfg ≡ accepted value format) ↔ IsAccepted u nfkc raw cfg value format
unfolding preprocess
preprocess_iff u nfkc raw cfg value format = (
  preprocess_sound u nfkc raw cfg value format,
  λ a.
      let format_is : format ≡ detect_format value =
        unfold detect_format in ground (arith, a.email, a.local) in
      let good = (format_allowed_iff format cfg.allowed_formats).1 a.allowed in
      let checked : cfg.normalization.reject_domain_mismatch ≡ true
          → validate_domain u value (detect_format value) cfg ≡ none =
        λ on. validate_domain_complete u value cfg (a.domain on) in
      ground (arith, a.value_is, a.filled, format_is, good, checked),
)
