-- ===== src/Tests/Names.antt =====
-- The theorems on user names and secret references, at concrete inputs.
use authrim_wordwarden.Prelude.{refl, true, [], ◌∷◌, lit, text_beq}
use authrim_wordwarden.GoText.{
  Unicode, is_ascii, is_space, lower_byte, drop_spaces, drop_spaces_right, to_lower, trim_space,
  contains_byte, cut, equal_fold,
}
use authrim_wordwarden.Username.{
  UsernameConfig, detect_format, among, format_allowed, folds_to_one, check_domain, validate_domain,
  normalized, preprocess,
}
use authrim_wordwarden.Username.Acceptance.{preprocess_iff, IsAccepted}
use authrim_wordwarden.Secrets.{SecretRef, parse_parts, parse_ref}
use authrim_wordwarden.Secrets.References.{parse_ref_iff, IsReference}

abbrev pub unicode : Unicode
unicode = record {
  wide_lower = λ s. s;
  wide_trim = λ s. s;
  wide_fields = λ s. s ∷ [];
  wide_fold = text_beq;
}

abbrev pub username_config : UsernameConfig
username_config = record {
  allowed_formats = lit "upn" ∷ [];
  allowed_domains = [];
  allowed_upn_suffixes = lit "Corp.Example" ∷ [];
  normalization = record {
    trim = true;
    unicode_form = [];
    letter_case = lit "lower";
    reject_domain_mismatch = true;
  };
}

preprocess_iff_example :
    IsAccepted unicode
      (λ s. s)
      (lit " Ann@corp.example ")
      username_config
      (lit "ann@corp.example")
      (lit "email")
unfolding is_ascii is_space lower_byte drop_spaces drop_spaces_right to_lower trim_space
    contains_byte cut equal_fold detect_format among format_allowed folds_to_one check_domain
    validate_domain normalized preprocess lit text_beq
preprocess_iff_example =
    (preprocess_iff unicode (λ s. s) (lit " Ann@corp.example ") username_config
        (lit "ann@corp.example") (lit "email")).0
      refl

abbrev secret : SecretRef
secret = record { scheme = lit "file"; name = lit "/a:b"; raw = lit "file:/a:b" }

parse_ref_iff_example : IsReference (lit "file:/a:b") secret
unfolding cut parse_parts parse_ref lit text_beq
parse_ref_iff_example = (parse_ref_iff (lit "file:/a:b") secret).0 refl
