-- ===== src/Username.antt =====
-- The preprocessing of user names, of internal/core/username/username.go, with its configuration of
-- internal/ports/config/config.go. `nfkc` is the normalisation of golang.org/x/text.
pub mod Acceptance
use authrim_wordwarden.Prelude.{
  Bool, true, false, not, ◌&&◌, ◌||◌, List, [], ◌∷◌, Option, none, some, Text, lit, text_eq, ◌==◌,
  is_nil, if◌then◌else◌,
}
use authrim_wordwarden.GoText.{Unicode, to_lower, trim_space, contains_byte, cut, equal_fold}

-- The field `Case` has a keyword's name here.
pub record UsernameNormalizationConfig : Type 0 where
  pub trim : Bool
  pub unicode_form : Text
  pub letter_case : Text
  pub reject_domain_mismatch : Bool

pub record UsernameConfig : Type 0 where
  pub allowed_formats : List Text
  pub allowed_domains : List Text
  pub allowed_upn_suffixes : List Text
  pub normalization : UsernameNormalizationConfig

pub data UsernameError : Type 0 where
  empty_username format_not_allowed domain_mismatch : UsernameError

-- `value` with its `format`, or an error.
pub data Preprocessed : Type 0 where
  accepted : (value format : Text) → Preprocessed
  rejected : UsernameError → Preprocessed

unfoldable pub detect_format : Text → Text
detect_format value = if contains_byte b'@' value then lit "email" else lit "local_part"

unfoldable pub among : Text → List Text → Bool
among format [] = false
among format (candidate ∷ allowed) =
    if candidate == format
    then true
    else if format == lit "email" && candidate == lit "upn"
    then true
    else among format allowed

unfoldable pub format_allowed : Text → List Text → Bool
format_allowed format allowed = if is_nil allowed then true else among format allowed

module _ (u : Unicode) where
  unfoldable pub folds_to_one : Text → List Text → Bool
  folds_to_one domain [] = false
  folds_to_one domain (allowed ∷ rest) =
      if equal_fold u domain allowed then true else folds_to_one domain rest

  -- Behind `strings.Cut`.
  unfoldable pub check_domain : Option (Text × Text) → UsernameConfig → Option UsernameError
  check_domain none cfg = some format_not_allowed
  check_domain (some (local, domain)) cfg =
      if is_nil domain
      then some format_not_allowed
      else if is_nil cfg.allowed_domains && is_nil cfg.allowed_upn_suffixes
      then none
      else if folds_to_one domain cfg.allowed_domains
      then none
      else if folds_to_one domain cfg.allowed_upn_suffixes
      then none
      else some domain_mismatch

  unfoldable pub validate_domain : Text → Text → UsernameConfig → Option UsernameError
  validate_domain value format cfg =
      if not (format == lit "email") then none else check_domain (cut b'@' value) cfg

module _ (u : Unicode) (nfkc : Text → Text) where
  -- The three steps of the normalisation.
  unfoldable pub normalized : Text → UsernameNormalizationConfig → Text
  normalized raw n =
      let trimmed = if n.trim then trim_space u raw else raw in
      let composed = if n.unicode_form == lit "NFKC" then nfkc trimmed else trimmed in
      if n.letter_case == lit "lower" then to_lower u composed else composed

  unfoldable pub preprocess : Text → UsernameConfig → Preprocessed
  preprocess raw cfg =
      let value = normalized raw cfg.normalization in
      let format = detect_format value in
      if is_nil value
      then rejected empty_username
      else if not (format_allowed format cfg.allowed_formats)
      then rejected format_not_allowed
      else if cfg.normalization.reject_domain_mismatch
      then elim (validate_domain u value format cfg) [
        | none ↦ accepted value format
        | some e ↦ rejected e
      ]
      else accepted value format
