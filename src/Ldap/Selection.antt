-- ===== src/Ldap/Selection.antt =====
-- The attributes that the LDAP client selects, of internal/adapters/ldap/client.go.
use authrim_wordwarden.Prelude.{
  ◌≡◌, inl, inr, not, ◌&&◌, ◌||◌, List, [], ◌∷◌, ◌++◌, Text, text_eq, text_iff, arith, Bool-cases,
  contains, contains-append, IsDistinct, concat-IsDistinct,
}
use authrim_wordwarden.Ldap.Attributes.{select_names, requested_attributes}

selected :
    (allowed result names : List Text) (name : Text)
    → contains name (select_names allowed result names)
      ≡ (contains name result || (contains name names && contains name allowed))
unfolding select_names contains
selected allowed result [] name = ground arith
selected allowed result (x ∷ names) name =
    elim (Bool-cases (contains x allowed && not (contains x result))) [
      | inl taken ↦
          rw (taken, select_names)
            (ground (
              arith,
              selected allowed (result ++ x ∷ []) names name,
              contains-append name result (x ∷ []),
              text_iff x name,
            ))
      | inr left_out ↦
          rw (left_out, select_names)
            (ground (arith, selected allowed result names name, text_iff x name))
    ]

selected-IsDistinct :
    (allowed result names : List Text)
    → IsDistinct result
    → IsDistinct (select_names allowed result names)
unfolding select_names
selected-IsDistinct allowed result [] d = d
selected-IsDistinct allowed result (x ∷ names) d =
    elim (Bool-cases (contains x allowed && not (contains x result))) [
      | inl taken ↦
          rw (taken, select_names)
            (selected-IsDistinct allowed _ names (concat-IsDistinct result x (ground arith) d))
      | inr left_out ↦ rw (left_out, select_names) (selected-IsDistinct allowed result names d)
    ]

-- The attributes that a request gets are those that it asks for and the configuration allows, each
-- once.
pub requested_attributes_lem :
    (requested allowed : List Text)
    → IsDistinct (requested_attributes requested allowed)
      × ((name : Text)
          → contains name (requested_attributes requested allowed)
            ≡ (contains name requested && contains name allowed))
unfolding requested_attributes contains
requested_attributes_lem requested allowed =
    (selected-IsDistinct allowed [] requested tt, λ name. selected allowed [] requested name)
