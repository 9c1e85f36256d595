-- ===== src/GoUrl.antt =====
-- What the program uses of package net/url, as a parameter: the parts of a URL that it reads; and
-- what several of its packages ask of a URL.
use authrim_wordwarden.Prelude.{
  ◌||◌, Bool, true, false, List, [], ◌∷◌, Option, Text, lit, text_eq, ◌==◌, if◌then◌else◌, eqb,
}
use authrim_wordwarden.GoText.Splitting.{split}

-- `host` is with the port, `hostname` without it and without brackets.
pub record Url : Type 0 where
  pub scheme : Text
  pub host : Text
  pub hostname : Text
  pub path : Text
  pub escaped_path : Text

pub record UrlParser : Type 0 where
  pub parse : Text → Option Url
  pub path_unescape : Text → Option Text

unfoldable pub is_local : Text → Bool
is_local hostname =
    hostname == lit "localhost" || (hostname == lit "127.0.0.1" || hostname == lit "::1")

-- `strings.Trim` with "/".
unfoldable pub drop_slashes : Text → Text
drop_slashes [] = []
drop_slashes (c ∷ s) = elim (eqb c b'/') [ true ↦ drop_slashes s | false ↦ c ∷ s ]

unfoldable pub drop_slashes_right : Text → Text
drop_slashes_right [] = []
drop_slashes_right (c ∷ s) = elim (drop_slashes_right s) [
  | [] ↦ if eqb c b'/' then [] else c ∷ []
  | d ∷ rest ↦ c ∷ d ∷ rest
]

-- The parts of a path without slashes at its ends.
unfoldable pub path_parts : Url → List Text
path_parts url = split b'/' (drop_slashes_right (drop_slashes url.escaped_path))
