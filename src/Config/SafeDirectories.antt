-- ===== src/Config/SafeDirectories.antt =====
-- The directory's profile, groups and names in a configuration that
-- internal/ports/config/config.go accepts.
use authrim_wordwarden.Prelude.{
  ℕ, suc, ◌≡◌, ◌⊎◌, refl, inl, inr, true, false, not, ◌&&◌, List, [], ◌∷◌, ◌++◌, Text, lit, text_eq,
  is_nil, contains, All, arith, Bool-cases, ℤ, pos, lt_int,
}
use authrim_wordwarden.GoText.{Unicode}
use authrim_wordwarden.Username.{UsernameConfig}
use authrim_wordwarden.Config.{DirectoryProfileConfig, PagedSearchConfig, GroupConfig, PoolConfig}
use authrim_wordwarden.Config.Problems.{problems_of_nil, concat_nil, append_nil_parts, numbered}
use authrim_wordwarden.Config.Patterns.{valid_ldap_attribute_description}
use authrim_wordwarden.Config.LdapRules.{
  limit_problems, identifier_problems, identifiers_problems, paged_search_problems,
  validate_directory_profile, validate_pool, attribute_problems, validate_groups, formats_problems,
  validate_username,
}
use authrim_wordwarden.Config.SafeTenants.{IsWithin, IsDescription, IsKnownProfile, IsBoundedGroups}

limit_problems-IsWithin :
    (field : Text) (n most : ℤ) (when most_text : Text)
    → limit_problems field n most when most_text ≡ []
    → IsWithin most n
unfolding limit_problems
limit_problems-IsWithin field n most when most_text h = ground arith

attribute_problems-IsDescription :
    (field attribute : Text) → attribute_problems field attribute ≡ [] → IsDescription attribute
unfolding attribute_problems
attribute_problems-IsDescription field attribute h = ground arith

identifier_problems-IsDescription :
    (unicode : Unicode) (field attribute : Text)
    → identifier_problems unicode field attribute ≡ []
    → IsDescription attribute
unfolding identifier_problems
identifier_problems-IsDescription unicode field attribute h = ground arith

identifiers_problems-IsDescription :
    (unicode : Unicode) (prefix : Text) (i : ℕ) (attributes : List Text)
    → identifiers_problems unicode prefix i attributes ≡ []
    → All IsDescription attributes
unfolding identifiers_problems
identifiers_problems-IsDescription unicode prefix i [] h = tt
identifiers_problems-IsDescription unicode prefix i (attribute ∷ rest) h =
    let (one, others) =
      append_nil_parts
        (identifier_problems unicode (numbered (prefix ++ lit ".identifier_attributes") i)
          attribute)
        _ h in
    (
      identifier_problems-IsDescription unicode _ attribute one,
      identifiers_problems-IsDescription unicode prefix (suc i) rest others,
    )

paged_search_problems-IsWithin :
    (prefix : Text) (p : PagedSearchConfig)
    → paged_search_problems prefix p ≡ []
    → (p.enabled ≡ false)
      ⊎ (IsWithin (pos 10000) p.page_size
          × IsWithin (pos 100000) p.max_entries
          × IsWithin (pos 60000) p.timeout_ms)
unfolding paged_search_problems
paged_search_problems-IsWithin prefix p h = elim (Bool-cases p.enabled) [
  | inr off ↦ inl off
  | inl on ↦
      let (size, (entries, (timeout, _))) =
        (concat_nil _).0 (rw (on, paged_search_problems) at h) in
      inr (
        limit_problems-IsWithin _ _ _ _ _ size,
        limit_problems-IsWithin _ _ _ _ _ entries,
        limit_problems-IsWithin _ _ _ _ _ timeout,
      )
]

pub validate_directory_profile-IsKnownProfile :
    (unicode : Unicode) (prefix : Text) (p : DirectoryProfileConfig)
    → validate_directory_profile unicode prefix p ≡ []
    → IsKnownProfile p
unfolding validate_directory_profile
validate_directory_profile-IsKnownProfile unicode prefix p h =
    let (names, (identifiers, (others, (paged, _)))) = (concat_nil _).0 h in
    let (named, _) = (problems_of_nil _).0 names in
    let (subject, (strategy, (normalization, _))) = (problems_of_nil _).0 others in
    record {
      named = ground (arith, named);
      identifiers = identifiers_problems-IsDescription unicode prefix 0 _ identifiers;
      subject = described p.subject_attribute subject;
      strategy = ground (arith, strategy);
      normalization = ground (arith, normalization);
      paged = paged_search_problems-IsWithin _ p.paged_search paged;
    }
  where
    described :
        (subject : Text)
        → (not (is_nil subject) && not (valid_ldap_attribute_description subject)) ≡ false
        → (subject ≡ []) ⊎ IsDescription subject
    described [] k = inl refl
    described (c ∷ s) k = inr (ground arith)

pub validate_groups-IsBoundedGroups :
    (prefix : Text) (g : GroupConfig)
    → validate_groups prefix g ≡ []
    → (g.enabled ≡ false) ⊎ IsBoundedGroups g
unfolding validate_groups
validate_groups-IsBoundedGroups prefix g h = elim (Bool-cases g.enabled) [
  | inr off ↦ inl off
  | inl on ↦
      let (
        member,
        (searched, (response, (identifier, (display, (depth, (groups, (timeout, _))))))),
      ) =
        (concat_nil _).0 (rw (on, validate_groups) at h) in
      inr (record {
        member = attribute_problems-IsDescription _ _ member;
        searched = attribute_problems-IsDescription _ _ searched;
        response = attribute_problems-IsDescription _ _ response;
        identifier = attribute_problems-IsDescription _ _ identifier;
        display = attribute_problems-IsDescription _ _ display;
        depth = limit_problems-IsWithin _ _ _ _ _ depth;
        groups = limit_problems-IsWithin _ _ _ _ _ groups;
        timeout = limit_problems-IsWithin _ _ _ _ _ timeout;
      })
]

pub pool_not_negative :
    (prefix : Text) (pool : PoolConfig)
    → validate_pool prefix pool ≡ []
    → lt_int pool.max_idle (pos 0) ≡ false
unfolding validate_pool
pool_not_negative prefix pool h = ((problems_of_nil _).0 h).0

formats_known :
    (prefix : Text) (formats : List Text)
    → formats_problems prefix formats ≡ []
    → All (λ f. contains f (lit "local_part" ∷ lit "email" ∷ lit "upn" ∷ []) ≡ true) formats
unfolding formats_problems
formats_known prefix [] h = tt
formats_known prefix (format ∷ rest) h =
    let (one, others) = append_nil_parts _ _ h in
    let (known, _) = (problems_of_nil _).0 one in
    (ground (arith, known), formats_known prefix rest others)

pub username_formats_known :
    (prefix : Text) (u : UsernameConfig)
    → validate_username prefix u ≡ []
    → All
        (λ f. contains f (lit "local_part" ∷ lit "email" ∷ lit "upn" ∷ []) ≡ true)
        u.allowed_formats
unfolding validate_username
username_formats_known prefix u h =
    let (formats, _) = append_nil_parts _ _ h in formats_known prefix u.allowed_formats formats
