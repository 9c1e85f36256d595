-- ===== src/Ldap/Resolving.antt =====
-- The resolution of users and groups of internal/adapters/ldap/client.go stays in its frame.
use authrim_wordwarden.Prelude.{
  ℕ, suc, inl, inr, ◌||◌, List, [], ◌∷◌, ◌++◌, Text, text_eq, ◌==◌, lit, is_nil, leb, Bool-cases,
  length, zero,
}
use authrim_wordwarden.Directory
use authrim_wordwarden.Directory.{GroupFact}
use authrim_wordwarden.Ldap.{Library, Client}
use authrim_wordwarden.Ldap.Network.{Conn, known, Entry, Network, Session, Action, give, fail}
use authrim_wordwarden.Ldap.Connections.{require_service_search, capacity}
use authrim_wordwarden.Ldap.Frame.{
  Frame, Framed, Frame-refl, Frame-trans, Framed-bind, Framed-attempt, Outcome-cases, Framed-cases,
}
use authrim_wordwarden.Ldap.Parts.{
  Framed-if, Framed-set_operation_timeout, Framed-bind_service, Framed-normalizing,
}
use authrim_wordwarden.Ldap.Searching.{Framed-search}
use authrim_wordwarden.Ldap.Attributes.{wants_groups}
use authrim_wordwarden.Ldap.Groups.{
  Found, search_group_entries, ad_matching_rule_group_facts, search_frontier, search_depths,
  bfs_group_facts, group_facts, add_entries,
}
use authrim_wordwarden.Ldap.Verify.{
  single_search_entry, resolve_user_with_attributes, resolve_attributes_by_dn,
  resolve_attributes_after_successful_bind, resolve_direct_bind_user,
}

-- The same for a part that cannot fail.
abbrev pub Stays {κ} : {S : Type κ} → Conn → (Session → S × Session) → Type 0
Stays conn part = (s : Session) → Frame conn s (part s).1

module _ (lib : Library) (net : Network) (c : Client) where
  Framed-search_group_entries :
      (conn : Conn) (filter : Text) → Framed conn (search_group_entries lib net c conn filter)
  unfolding search_group_entries
  Framed-search_group_entries conn filter =
      Framed-bind conn _ _ (Framed-set_operation_timeout lib net c conn _ _)
        λ timeout. Framed-bind conn _ _ (Framed-search lib net c conn _) λ result. Frame-refl conn

  Stays-ad_matching_rule :
      (conn : Conn) (dn : Text) → Stays conn (ad_matching_rule_group_facts lib net c conn dn)
  unfolding ad_matching_rule_group_facts
  Stays-ad_matching_rule conn dn s =
      let filter =
        lit "("
        ++ (c.config.groups.search_member_attribute
            ++ (lit ":1.2.840.113556.1.4.1941:=" ++ (lib.escape_filter dn ++ lit ")"))) in
      let f = Framed-search_group_entries conn filter s in
      elim (Outcome-cases (search_group_entries lib net c conn filter s).0) [
        | inl (entries, e) ↦ rw (e, ad_matching_rule_group_facts) f
        | inr (x, e) ↦ rw (e, ad_matching_rule_group_facts) f
      ]

  Stays-search_frontier :
      (conn : Conn) (max depth : ℕ) (frontier : List Text) (f : Found lib c.config)
      → Stays conn (search_frontier lib net c conn max depth frontier f)
  unfolding search_frontier
  Stays-search_frontier conn max depth [] f s = Frame-refl conn s
  Stays-search_frontier conn max depth (dn ∷ frontier) f s =
      let filter =
        lit "("
        ++ (c.config.groups.search_member_attribute
            ++ (lit "=" ++ (lib.escape_filter dn ++ lit ")"))) in
      let r = search_group_entries lib net c conn filter s in
      let g = Framed-search_group_entries conn filter s in
      elim (Outcome-cases r.0) [
        | inr (x, e) ↦ rw (e, search_frontier) g
        | inl (entries, e) ↦
            let h = add_entries lib c.config max depth entries f in
            elim (Bool-cases (leb max (length h.facts))) [
              | inl full ↦ rw (e, full, search_frontier) g
              | inr room ↦
                  rw (e, room, search_frontier)
                    (Frame-trans g (Stays-search_frontier conn max depth frontier h r.1))
            ]
      ]

  Stays-search_depths :
      (rounds : ℕ) (conn : Conn) (max depth : ℕ) (f : Found lib c.config)
      → Stays conn (search_depths lib net c rounds conn max depth f)
  unfolding search_depths
  Stays-search_depths zero conn max depth f s = Frame-refl conn s
  Stays-search_depths (suc rounds) conn max depth f s =
      let r = search_frontier lib net c conn max depth f.next (record f { next = [] }) s in
      let g = Stays-search_frontier conn max depth f.next (record f { next = [] }) s in
      elim (Bool-cases (is_nil f.next || leb max (length f.facts))) [
        | inl over ↦ rw (over, search_depths) (Frame-refl conn s)
        | inr more ↦ elim (Bool-cases r.0.0) [
          | inr broke ↦ rw (more, broke, search_depths) g
          | inl whole ↦
              rw (more, whole, search_depths)
                (Frame-trans g (Stays-search_depths rounds conn max (suc depth) r.0.1 r.1))
        ]
      ]

  Stays-group_facts :
      (conn : Conn) (entry : Entry) (requested : List Text)
      → Stays conn (group_facts lib net c conn entry requested)
  unfolding group_facts bfs_group_facts
  Stays-group_facts conn entry requested s = elim (Bool-cases (wants_groups c.config requested)) [
    | inr unwanted ↦ rw (unwanted, group_facts) (Frame-refl conn s)
    | inl wanted ↦
        let strategy = c.config.directory_profile.group_strategy in
        elim (Bool-cases (strategy == lit "ad_matching_rule")) [
          | inl ad ↦ rw (wanted, ad, group_facts) (Stays-ad_matching_rule conn entry.dn s)
          | inr plain ↦ elim (Bool-cases (strategy == lit "bfs_member_search")) [
            | inl bfs ↦
                rw (wanted, plain, bfs, group_facts)
                  (Stays-search_depths (capacity c.config.groups.max_depth) conn
                    (capacity c.config.groups.max_groups) 1
                    (record { seen = []; facts = []; next = entry.dn ∷ [] }) s)
            | inr member ↦ rw (wanted, plain, member, group_facts) (Frame-refl conn s)
          ]
        ]
  ]

  Framed-single_search_entry :
      (conn : Conn) (entries : List Entry) → Framed conn (single_search_entry entries)
  unfolding single_search_entry
  Framed-single_search_entry conn [] = Frame-refl conn
  Framed-single_search_entry conn (entry ∷ []) = Frame-refl conn
  Framed-single_search_entry conn (entry ∷ second ∷ rest) = Frame-refl conn

  pub Framed-resolve_user :
      (conn : Conn) (username : Text) (requested : List Text)
      → Framed conn (resolve_user_with_attributes lib net c conn username requested)
  unfolding resolve_user_with_attributes
  Framed-resolve_user conn username requested =
      Framed-bind conn _ _ (Framed-set_operation_timeout lib net c conn _ _) λ timeout.
        Framed-bind conn _ _ (Framed-normalizing c conn _ (Framed-search lib net c conn _))
          λ result.
            Framed-bind conn _ _ (Framed-single_search_entry conn result.entries)
              λ entry. Stays-group_facts conn entry requested

  first_of :
      (conn : Conn) (entries : List Entry) (f : Entry → List (Text × List Text))
      → Framed conn (elim entries as (λ o. Action (List (Text × List Text))) [
        | [] ↦ fail (known Directory.user_not_found)
        | entry ∷ rest ↦ give (f entry)
      ])
  first_of conn [] f = Frame-refl conn
  first_of conn (entry ∷ rest) f = Frame-refl conn

  Framed-resolve_attributes_by_dn :
      (conn : Conn) (dn : Text) (requested : List Text)
      → Framed conn (resolve_attributes_by_dn lib net c conn dn requested)
  unfolding resolve_attributes_by_dn
  Framed-resolve_attributes_by_dn conn dn requested =
      Framed-bind conn _ _ (Framed-set_operation_timeout lib net c conn _ _) λ timeout.
        Framed-bind conn _ _ (Framed-normalizing c conn _ (Framed-search lib net c conn _))
          λ result. first_of conn result.entries _

  pub Framed-resolve_attributes :
      (conn : Conn) (dn username : Text) (requested : List Text)
      → Framed conn (resolve_attributes_after_successful_bind lib net c conn dn username requested)
  unfolding resolve_attributes_after_successful_bind
  Framed-resolve_attributes conn dn username requested = Framed-if conn _ _ _ (Frame-refl conn) (
      Framed-bind conn _ _ (Framed-bind_service lib net c conn) λ ok.
        Framed-bind conn _ _
          (Framed-attempt conn _ (Framed-resolve_attributes_by_dn conn dn requested))
          λ by_dn.
            Framed-cases conn by_dn _ _ (λ attributes. Frame-refl conn)
              λ e. Framed-if conn _ _ _ (Frame-refl conn) (
                Framed-bind conn _ _
                  (Framed-attempt conn _ (Framed-resolve_user conn username requested))
                  λ user.
                    Framed-cases conn user _ _ (λ u. Frame-refl conn)
                      λ e'. Framed-if conn _ _ _ (Frame-refl conn) (Frame-refl conn)))

  pub Framed-resolve_direct_bind_user :
      (conn : Conn) (username : Text) (requested : List Text)
      → Framed conn (resolve_direct_bind_user lib net c conn username requested)
  unfolding resolve_direct_bind_user require_service_search
  Framed-resolve_direct_bind_user conn username requested =
      Framed-bind conn _ _ (Framed-if conn _ _ _ (Frame-refl conn) (Frame-refl conn)) λ ok.
        Framed-bind conn _ _ (Framed-bind_service lib net c conn)
          λ ok'. Framed-resolve_user conn username requested
