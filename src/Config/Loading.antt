-- ===== src/Config/Loading.antt =====
-- How internal/ports/config/config.go loads a configuration. Decoding YAML is a parameter, which
-- gives `none` on unknown fields too.
use authrim_wordwarden.Prelude.{
  ◌≡◌, refl, true, false, List, [], ◌∷◌, Option, none, some, Text, is_nil, if◌then◌else◌,
  Bool-cases, inl, inr, Option-cases, lit,
}
use authrim_wordwarden.Secrets.Resolving.{Host}
use authrim_wordwarden.Config.{Config}
use authrim_wordwarden.Config.Defaults.{or_text, apply_defaults}
use authrim_wordwarden.Config.Patterns.{Platform}
use authrim_wordwarden.Config.Validation.{validate}

-- Behind the decoding.
unfoldable pub settle : Platform → Config → Option Config
settle platform cfg =
    if is_nil (validate platform (apply_defaults cfg)) then some (apply_defaults cfg) else none

-- `Parse`; an error is `none`.
unfoldable pub parse : Platform → (Text → Option Config) → Text → Option Config
parse platform decode bytes = elim (decode bytes) [ none ↦ none | some cfg ↦ settle platform cfg ]

unfoldable pub load_file : Platform → (Text → Option Config) → Host → Text → Option Config
load_file platform decode host path = elim (host.read_file path) [
  | none ↦ none
  | some bytes ↦ parse platform decode bytes
]

is_nil-eq : (l : List Text) → is_nil l ≡ true → l ≡ []
is_nil-eq [] h = refl
is_nil-eq (t ∷ l) h = cc

-- A configuration that is loaded has its defaults filled in and is valid.
pub load_file-apply_defaults :
    (platform : Platform) (decode : Text → Option Config) (host : Host) (path : Text) (cfg : Config)
    → load_file platform decode host path ≡ some cfg
    → (raw : Config) × (cfg ≡ apply_defaults raw) × (validate platform cfg ≡ [])
unfolding load_file parse settle
load_file-apply_defaults platform decode host path cfg h =
    elim (Option-cases (host.read_file path)) [
      | inl unread ↦ absurd (cc (rw (unread, load_file) at h))
      | inr (bytes, read) ↦ elim (Option-cases (decode bytes)) [
        | inl bad ↦ absurd (cc (rw (read, bad, load_file, parse) at h))
        | inr (raw, decoded) ↦ elim (Bool-cases (is_nil (validate platform (apply_defaults raw)))) [
          | inr invalid ↦ absurd (cc (rw (read, decoded, invalid, load_file, parse, settle) at h))
          | inl valid ↦
              let same = rw (read, decoded, valid, load_file, parse, settle) at h in
              let named : apply_defaults raw ≡ cfg = cc in
              (raw, cc, rw (← named) (is_nil-eq _ valid))
        ]
      ]
    ]

pub listen_filled : (raw : Config) → is_nil (apply_defaults raw).server.listen ≡ false
unfolding apply_defaults or_text lit
listen_filled raw = filled raw.server.listen
  where
    filled : (listen : Text) → is_nil (or_text listen (lit "127.0.0.1:8080")) ≡ false
    filled [] = refl
    filled (c ∷ s) = refl
