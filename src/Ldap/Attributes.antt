-- ===== src/Ldap/Attributes.antt =====
-- The attributes that the LDAP client asks for and reads, of internal/adapters/ldap/client.go.
use authrim_wordwarden.Prelude.{
  ◌&&◌, ◌||◌, not, Bool, List, [], ◌∷◌, ◌++◌, Option, none, some, Text, lit, text_eq, ◌==◌, is_nil,
  if◌then◌else◌, contains, insert,
}
use authrim_wordwarden.GoText.{equal_fold}
use authrim_wordwarden.GoText.Encoding.{base64_raw_url}
use authrim_wordwarden.Ldap.{Library}
use authrim_wordwarden.Ldap.Network.{Entry, Attribute}
use authrim_wordwarden.Config.{LdapConfig}

-- The loop over the requested names, with the result so far, whose items are the keys of `seen`.
unfoldable pub select_names : List Text → List Text → List Text → List Text
select_names allowed result [] = result
select_names allowed result (name ∷ names) =
    select_names allowed
      (if contains name allowed && not (contains name result) then result ++ name ∷ [] else result)
      names

unfoldable pub requested_attributes : List Text → List Text → List Text
requested_attributes requested allowed = select_names allowed [] requested

unfoldable pub requested_attribute_includes : List Text → Text → Bool
requested_attribute_includes requested name = not (is_nil name) && contains name requested

-- Appends a name, unless it is empty or already there.
abbrev pub with_name : List Text → Text → List Text
with_name names name = if is_nil name || contains name names then names else names ++ name ∷ []

-- Are groups asked for?
unfoldable pub wants_groups : LdapConfig → List Text → Bool
wants_groups cfg requested =
    cfg.groups.enabled && requested_attribute_includes requested cfg.groups.response_attribute

unfoldable pub search_attributes : LdapConfig → List Text → List Text
search_attributes cfg requested =
    let attrs =
      with_name (requested_attributes requested cfg.attributes)
        cfg.directory_profile.subject_attribute in
    if not (wants_groups cfg requested) then attrs else with_name attrs cfg.groups.member_attribute

unfoldable pub group_search_attributes : LdapConfig → List Text
group_search_attributes cfg =
    with_name (with_name [] cfg.groups.id_attribute) cfg.groups.display_attribute

abbrev pub first_text : List Text → Option Text
first_text [] = none
first_text (x ∷ xs) = some x

module _ (lib : Library) (cfg : LdapConfig) where
  unfoldable pub binary_subject_attribute : Text → Bool
  binary_subject_attribute name =
      cfg.directory_profile.name == lit "active_directory"
      && equal_fold lib.unicode name (lit "objectGUID")

  -- The value of one attribute that has the name.
  unfoldable pub subject_value_of : Text → Attribute → Option Text
  subject_value_of name attr =
      let text : Option Text = elim (first_text attr.values) [
        | some value ↦ some value
        | none ↦ elim (first_text attr.byte_values) [
          | none ↦ none
          | some b ↦ some (base64_raw_url b)
        ]
      ] in
      if binary_subject_attribute name
      then elim (first_text attr.byte_values) [ none ↦ text | some b ↦ some (base64_raw_url b) ]
      else text

  unfoldable pub subject_value : Text → List Attribute → Text
  subject_value name [] = []
  subject_value name (attr ∷ attrs) =
      let rest = subject_value name attrs in
      if not (equal_fold lib.unicode attr.name name)
      then rest
      else elim (subject_value_of name attr) [ none ↦ rest | some value ↦ value ]

  unfoldable pub entry_subject_value : Entry → Text
  entry_subject_value entry =
      let name = cfg.directory_profile.subject_attribute in
      if is_nil name then [] else subject_value name entry.attributes

  -- The values of the names, each under its name if there are any.
  unfoldable pub values_of : Entry → List Text → List (Text × List Text)
  values_of entry [] = []
  values_of entry (name ∷ names) =
      let values = lib.attribute_values entry name in
      let rest = values_of entry names in if is_nil values then rest else (name, values) ∷ rest

  unfoldable pub entry_attributes : Entry → List Text → List (Text × List Text)
  entry_attributes entry requested =
      let attrs = values_of entry (requested_attributes requested cfg.attributes) in
      let values = lib.attribute_values entry cfg.groups.member_attribute in
      if wants_groups cfg requested && not (is_nil values)
      then insert cfg.groups.response_attribute values attrs
      else attrs
