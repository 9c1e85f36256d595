-- ===== src/Ldap/Groups.antt =====
-- The groups of a user, of internal/adapters/ldap/client.go.
use authrim_wordwarden.Prelude.{
  ℕ, zero, suc, ◌||◌, not, Bool, true, false, List, [], ◌∷◌, ◌++◌, none, some, Text, lit, text_eq,
  ◌==◌, is_nil, if◌then◌else◌, length, leb, contains, pos, le_int,
}
use authrim_wordwarden.Directory.{GroupFact}
use authrim_wordwarden.Config.{LdapConfig}
use authrim_wordwarden.Ldap.{Library, Client}
use authrim_wordwarden.Ldap.Network.{
  Conn, Entry, whole_subtree, Network, Session, done, failed, Action, give, ◌>>=◌,
}
use authrim_wordwarden.Ldap.Timeouts.{ldap_time_limit_seconds}
use authrim_wordwarden.Ldap.Attributes.{group_search_attributes, wants_groups, first_text}
use authrim_wordwarden.Ldap.Connections.{set_operation_timeout, capacity}
use authrim_wordwarden.Ldap.Search.{search}

-- `xs[:n]` for at most as many items as there are.
unfoldable pub take {ℓ} : {A : Type ℓ} → ℕ → List A → List A
take zero xs = []
take (suc n) [] = []
take (suc n) (x ∷ xs) = x ∷ take n xs

module _ (lib : Library) (cfg : LdapConfig) where
  unfoldable pub first_attribute_value : Entry → Text → Text
  first_attribute_value entry name =
      if is_nil name
      then []
      else elim (first_text (lib.attribute_values entry name)) [ none ↦ [] | some value ↦ value ]

  abbrev pub or_else : Text → Text → Text
  or_else value fallback = if is_nil value then fallback else value

  unfoldable pub group_fact_from_entry : Entry → Text → ℕ → GroupFact
  group_fact_from_entry entry source depth =
      let id = or_else (first_attribute_value entry cfg.groups.id_attribute) entry.dn in
      record {
        id = id;
        dn = entry.dn;
        display = or_else (first_attribute_value entry cfg.groups.display_attribute) id;
        source = source;
        depth = depth;
      }

  unfoldable pub facts_of_entries : List Entry → Text → ℕ → List GroupFact
  facts_of_entries [] source depth = []
  facts_of_entries (entry ∷ entries) source depth =
      group_fact_from_entry entry source depth ∷ facts_of_entries entries source depth

  -- Of as many entries as `MaxGroups` says, or of all if it is not positive.
  unfoldable pub group_facts_from_entries : List Entry → Text → ℕ → List GroupFact
  group_facts_from_entries entries source depth =
      facts_of_entries
        (if le_int cfg.groups.max_groups (pos 0)
          then entries
          else take (capacity cfg.groups.max_groups) entries)
        source depth

  unfoldable pub member_facts : List Text → List GroupFact
  member_facts [] = []
  member_facts (dn ∷ dns) =
      record { id = dn; dn = dn; display = dn; source = cfg.groups.member_attribute; depth = 1 }
      ∷ member_facts dns

  unfoldable pub member_attribute_group_facts : Entry → List GroupFact
  member_attribute_group_facts entry =
      member_facts (lib.attribute_values entry cfg.groups.member_attribute)

  -- What the search in breadth has found: the names `seen`, the facts, and the next frontier.
  pub record Found : Type 0 where
    pub seen : List Text
    pub facts : List GroupFact
    pub next : List Text

  -- The innermost loop, over the entries of one search; it breaks when there are enough facts.
  unfoldable pub add_entries : ℕ → ℕ → List Entry → Found → Found
  add_entries max depth [] f = f
  add_entries max depth (entry ∷ entries) f =
      let g : Found = record {
        seen = f.seen ++ entry.dn ∷ [];
        facts = f.facts ++ group_fact_from_entry entry (lit "bfs_member_search") depth ∷ [];
        next = f.next;
      } in
      elim (contains entry.dn f.seen) [
        | true ↦ add_entries max depth entries f
        | false ↦ elim (leb max (length g.facts)) [
          | true ↦ g
          | false ↦ add_entries max depth entries (record g { next = f.next ++ entry.dn ∷ [] })
        ]
      ]

module _ (lib : Library) (net : Network) (c : Client) where
  -- `MaxGroups` is not negative where the configuration is valid; otherwise the slice would panic.
  unfoldable pub search_group_entries : Conn → Text → Action (List Entry)
  search_group_entries conn filter = do
    let groups = c.config.groups
    timeout ←
        set_operation_timeout lib net c conn
          (if le_int groups.timeout_ms (pos 0)
            then c.timeouts.ldap_search_ms
            else groups.timeout_ms)
          (pos 1000000000)
    result ← search lib net c conn (record {
      base_dn = if is_nil groups.search_base_dn then c.config.base_dn else groups.search_base_dn;
      scope = whole_subtree;
      size_limit = groups.max_groups;
      time_limit = ldap_time_limit_seconds timeout;
      filter = filter;
      attributes = group_search_attributes c.config;
      controls = [];
    })
    give (take (capacity groups.max_groups) result.entries)

  -- An error gives no facts.
  unfoldable pub ad_matching_rule_group_facts : Conn → Text → Session → List GroupFact × Session
  ad_matching_rule_group_facts conn user_dn s =
      let filter =
        lit "("
        ++ (c.config.groups.search_member_attribute
            ++ (lit ":1.2.840.113556.1.4.1941:=" ++ (lib.escape_filter user_dn ++ lit ")"))) in
      let r = search_group_entries conn filter s in
      elim r.0 [
        | failed e ↦ ([], r.1)
        | done entries ↦
            (group_facts_from_entries lib c.config entries (lit "ad_matching_rule") 1, r.1)
      ]

  -- The loop over the frontier. It is false where a search failed, so that the search ends.
  unfoldable pub search_frontier :
      Conn
      → ℕ
      → ℕ
      → List Text
      → Found lib c.config
      → Session
      → (Bool × Found lib c.config) × Session
  search_frontier conn max depth [] f s = ((true, f), s)
  search_frontier conn max depth (member_dn ∷ frontier) f s =
      let filter =
        lit "("
        ++ (c.config.groups.search_member_attribute
            ++ (lit "=" ++ (lib.escape_filter member_dn ++ lit ")"))) in
      let r = search_group_entries conn filter s in
      elim r.0 [
        | failed e ↦ ((false, f), r.1)
        | done entries ↦
            let g = add_entries lib c.config max depth entries f in
            elim (leb max (length g.facts)) [
              | true ↦ ((true, g), r.1)
              | false ↦ search_frontier conn max depth frontier g r.1
            ]
      ]

  -- The outer loop, with the rounds that are left.
  unfoldable pub search_depths :
      ℕ → Conn → ℕ → ℕ → Found lib c.config → Session → List GroupFact × Session
  search_depths zero conn max depth f s = (f.facts, s)
  search_depths (suc rounds) conn max depth f s =
      let r = search_frontier conn max depth f.next (record f { next = [] }) s in
      if is_nil f.next || leb max (length f.facts) then (f.facts, s) else elim r.0.0 [
        | false ↦ (r.0.1.facts, r.1)
        | true ↦ search_depths rounds conn max (suc depth) r.0.1 r.1
      ]

  unfoldable pub bfs_group_facts : Conn → Text → Session → List GroupFact × Session
  bfs_group_facts conn user_dn =
      search_depths (capacity c.config.groups.max_depth) conn (capacity c.config.groups.max_groups)
        1 (record { seen = []; facts = []; next = user_dn ∷ [] })

  unfoldable pub group_facts : Conn → Entry → List Text → Session → List GroupFact × Session
  group_facts conn entry requested s =
      if not (wants_groups c.config requested)
      then ([], s)
      else if c.config.directory_profile.group_strategy == lit "ad_matching_rule"
      then ad_matching_rule_group_facts conn entry.dn s
      else if c.config.directory_profile.group_strategy == lit "bfs_member_search"
      then bfs_group_facts conn entry.dn s
      else (member_attribute_group_facts lib c.config entry, s)
