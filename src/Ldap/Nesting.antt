-- ===== src/Ldap/Nesting.antt =====
-- The search in breadth for nested groups, of internal/adapters/ldap/client.go.
use authrim_wordwarden.Prelude.{
  ℕ, zero, suc, ◌+◌, ◌≡◌, ◌≤◌, ◌<◌, inl, inr, refl, ap, Bool, true, false, ◌||◌, List, [], ◌∷◌,
  ◌++◌, Text, lit, is_nil, arith, Bool-cases, length, length-append, leb, contains, IsDistinct,
  concat-IsDistinct, All, All-append,
}
use authrim_wordwarden.Directory.{GroupFact}
use authrim_wordwarden.Ldap.{Library, Client}
use authrim_wordwarden.Ldap.Network.{Conn, Entry, Network, Session, Outcome, done, failed}
use authrim_wordwarden.Ldap.Connections.{capacity}
use authrim_wordwarden.Ldap.Groups.{
  Found, add_entries, group_fact_from_entry, search_frontier, search_depths, bfs_group_facts,
}

abbrev pub dns_of : List GroupFact → List Text
dns_of [] = []
dns_of (fact ∷ facts) = fact.dn ∷ dns_of facts

dns_of-append : (xs ys : List GroupFact) → dns_of (xs ++ ys) ≡ dns_of xs ++ dns_of ys
dns_of-append [] ys = refl
dns_of-append (fact ∷ facts) ys = ap (λ dns. fact.dn ∷ dns) (dns_of-append facts ys)

-- A fact from one of the first `top` depths.
abbrev pub IsWithin : ℕ → GroupFact → Type 0
IsWithin top fact = (1 ≤ fact.depth) × (fact.depth ≤ top)

-- The facts that a search in breadth may give: bounded, of bounded depth, and no group twice.
pub record IsFair (max top : ℕ) (facts : List GroupFact) : Type 0 where
  pub fits : length facts ≤ max
  pub distinct : IsDistinct (dns_of facts)
  pub within : All (IsWithin top) facts

-- What is found is fair, and `seen` holds the groups of the facts.
abbrev IsFairFound : (lib : Library) (c : Client) (max top : ℕ) → Found lib c.config → Type 0
IsFairFound lib c max top f = IsFair max top f.facts × (f.seen ≡ dns_of f.facts)

module _ (lib : Library) (net : Network) (c : Client) where
  added_fair :
      (max top depth : ℕ) (entry : Entry) (f : Found lib c.config)
      → 1 ≤ depth
      → depth ≤ top
      → length f.facts < max
      → contains entry.dn f.seen ≡ false
      → IsFairFound lib c max top f
      → IsFairFound lib c max top (record {
        seen = f.seen ++ entry.dn ∷ [];
        facts =
            f.facts
            ++ group_fact_from_entry lib c.config entry (lit "bfs_member_search") depth ∷ [];
        next = f.next;
      })
  unfolding group_fact_from_entry
  added_fair max top depth entry f low high room fresh (h, seen) =
      let fact = group_fact_from_entry lib c.config entry (lit "bfs_member_search") depth in
      let grown : dns_of (f.facts ++ fact ∷ []) ≡ dns_of f.facts ++ entry.dn ∷ [] =
        dns_of-append f.facts (fact ∷ []) in
      (
        record {
          fits = ground (arith, length-append f.facts (fact ∷ []));
          distinct =
              rw grown (concat-IsDistinct (dns_of f.facts) entry.dn (rw seen at fresh) h.distinct);
          within = All-append (IsWithin top) f.facts (fact ∷ []) h.within ((low, high), tt);
        },
        rw grown (ap (λ seen'. seen' ++ entry.dn ∷ []) seen),
      )

  entries_fair :
      (max top depth : ℕ) (entries : List Entry) (f : Found lib c.config)
      → 1 ≤ depth
      → depth ≤ top
      → length f.facts < max
      → IsFairFound lib c max top f
      → IsFairFound lib c max top (add_entries lib c.config max depth entries f)
  unfolding add_entries
  entries_fair max top depth [] f low high room h = h
  entries_fair max top depth (entry ∷ entries) f low high room h =
      elim (Bool-cases (contains entry.dn f.seen)) [
        | inl known ↦ rw (known, add_entries) (entries_fair max top depth entries f low high room h)
        | inr fresh ↦
            let g = added_fair max top depth entry f low high room fresh h in
            elim (Bool-cases (
              leb max (
                length (
                  f.facts
                  ++ group_fact_from_entry lib c.config entry (lit "bfs_member_search") depth
                    ∷ [])))) [
                      | inl full ↦ rw (fresh, full, add_entries) g
                      | inr more ↦
                          rw (fresh, more, add_entries)
                            (entries_fair max top depth entries _ low high (ground arith) g)
                    ]
      ]

  frontier_fair :
      (conn : Conn) (max top depth : ℕ) (frontier : List Text) (f : Found lib c.config)
      (s : Session)
      → 1 ≤ depth
      → depth ≤ top
      → length f.facts < max
      → IsFairFound lib c max top f
      → IsFairFound lib c max top (search_frontier lib net c conn max depth frontier f s).0.1
  unfolding search_frontier
  frontier_fair conn max top depth [] f s low high room h = h
  frontier_fair conn max top depth (dn ∷ frontier) f s low high room h =
      searched_from _ λ g t more k. frontier_fair conn max top depth frontier g t low high more k
    where
      searched_from :
          (r : Outcome (List Entry) × Session)
          → ((g : Found lib c.config) (t : Session)
              → length g.facts < max
              → IsFairFound lib c max top g
              → IsFairFound lib c max top
                  (search_frontier lib net c conn max depth frontier g t).0.1)
          → IsFairFound lib c max top
              (elim r.0 as (λ o. (Bool × Found lib c.config) × Session) [
                | failed e ↦ ((false, f), r.1)
                | done entries ↦
                    let g = add_entries lib c.config max depth entries f in
                    elim (leb max (length g.facts)) [
                      | true ↦ ((true, g), r.1)
                      | false ↦ search_frontier lib net c conn max depth frontier g r.1
                    ]
              ]).0.1
      searched_from (failed e, t) again = h
      searched_from (done entries, t) again =
          let g = entries_fair max top depth entries f low high room h in
          elim (Bool-cases
            (leb max (length (add_entries lib c.config max depth entries f).facts))) [
              | inl full ↦ rw full g
              | inr more ↦ rw more (again _ t (ground arith) g)
            ]

  depths-IsFair :
      (rounds : ℕ) (conn : Conn) (max top depth : ℕ) (f : Found lib c.config) (s : Session)
      → 1 ≤ depth
      → depth + rounds ≤ suc top
      → IsFairFound lib c max top f
      → IsFair max top (search_depths lib net c rounds conn max depth f s).0
  unfolding search_depths
  depths-IsFair zero conn max top depth f s low high h = h.0
  depths-IsFair (suc rounds) conn max top depth f s low high h =
      elim (Bool-cases (is_nil f.next || leb max (length f.facts))) [
        | inl ended ↦ rw (ended, search_depths) h.0
        | inr on ↦
            rw (on, search_depths)
              (next_from
                (search_frontier lib net c conn max depth f.next (record f { next = [] }) s)
                (frontier_fair conn max top depth f.next (record f { next = [] }) s low
                  (omega arith) (ground arith) h)
                (λ g t k.
                  depths-IsFair rounds conn max top (suc depth) g t (omega arith) (omega arith) k))
      ]
    where
      next_from :
          (r : (Bool × Found lib c.config) × Session)
          → IsFairFound lib c max top r.0.1
          → ((g : Found lib c.config) (t : Session)
              → IsFairFound lib c max top g
              → IsFair max top (search_depths lib net c rounds conn max (suc depth) g t).0)
          → IsFair max top
              (elim r.0.0 as (λ b. List GroupFact × Session) [
                | false ↦ (r.0.1.facts, r.1)
                | true ↦ search_depths lib net c rounds conn max (suc depth) r.0.1 r.1
              ]).0
      next_from ((false, g), t) k again = k.0
      next_from ((true, g), t) k again = again g t k

  -- Whatever the directory answers, and however many rounds its pages are given, the search in
  -- breadth for the groups of a user gives at most `max_groups` of them, each from a depth between one
  -- and `max_depth`, and none twice, though the groups may contain each other in a cycle.
  pub bfs_group_facts-IsFair :
      (conn : Conn) (user_dn : Text) (s : Session)
      → IsFair
          (capacity c.config.groups.max_groups)
          (capacity c.config.groups.max_depth)
          (bfs_group_facts lib net c conn user_dn s).0
  unfolding bfs_group_facts
  bfs_group_facts-IsFair conn user_dn s =
      depths-IsFair (capacity c.config.groups.max_depth) conn _ _ 1 _ s (omega arith) (omega arith)
        (record { fits = omega arith; distinct = tt; within = tt }, refl)
