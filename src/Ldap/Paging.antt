-- ===== src/Ldap/Paging.antt =====
-- The loop over the pages of a search of internal/adapters/ldap/client.go.
use authrim_wordwarden.Prelude.{
  ℕ, zero, suc, ◌+◌, ◌≡◌, ◌≢◌, ◌≤◌, ◌<◌, inl, inr, refl, false, List, [], ◌∷◌, ◌++◌, Option, none,
  some, Text, ltb, arith, Bool-cases, length, length-append, pos,
}
use authrim_wordwarden.Ldap.{Library, Client}
use authrim_wordwarden.Ldap.Network.{
  Conn, Event, out_of_rounds, SearchRequest, SearchResult, SearchReply, found, broken, Network,
  Session, Outcome, done, failed, Action,
}
use authrim_wordwarden.Ldap.Search.{
  combine, raw_search, no_result, on_cookie, on_page, search_pages, search_with_paging_limit,
}

-- What the directory answers to one page, if the loop is to end: entries, or an error of its own.
abbrev pub HasProgress : SearchReply → Type 0
HasProgress (found r) = 1 ≤ length r.entries
HasProgress (broken r e) = e ≢ out_of_rounds

-- A search that has ended, with at most `max` entries if it gives a result.
abbrev pub IsBounded : ℕ → Outcome SearchResult × Session → Type 0
IsBounded max (done r, t) = length r.entries ≤ max
IsBounded max (failed e, t) = Unit

abbrev pub HasEnded : Outcome SearchResult × Session → Type 0
HasEnded (done r, t) = Unit
HasEnded (failed e, t) = e ≢ out_of_rounds

module _ (lib : Library) (net : Network) (c : Client) where
  IsBounded-cookie :
      (max : ℕ) (all : SearchResult) (more : Text → SearchResult → Action SearchResult)
      (found_cookie : Option (Option Text)) (s : Session)
      → length all.entries ≤ max
      → ((cookie : Text) → IsBounded max (more cookie all s))
      → IsBounded max (on_cookie lib net c all more found_cookie s)
  unfolding on_cookie
  IsBounded-cookie max all more none s le f = le
  IsBounded-cookie max all more (some none) s le f = le
  IsBounded-cookie max all more (some (some [])) s le f = le
  IsBounded-cookie max all more (some (some (x ∷ cookie))) s le f = f (x ∷ cookie)

  IsBounded-page :
      (max : ℕ) (before : SearchResult) (more : Text → SearchResult → Action SearchResult)
      (reply : SearchReply) (s : Session)
      → ((cookie : Text) (all : SearchResult) → IsBounded max (more cookie all s))
      → IsBounded max (on_page lib net c max before more reply s)
  unfolding on_page
  IsBounded-page max before more (broken none e) s f = tt
  IsBounded-page max before more (broken (some result) e) s f =
      elim (Bool-cases (ltb max (length (before.entries ++ result.entries)))) [
        | inl over ↦ rw (over, on_page) tt
        | inr within_max ↦ rw (within_max, on_page) tt
      ]
  IsBounded-page max before more (found result) s f =
      elim (Bool-cases (ltb max (length (before.entries ++ result.entries)))) [
        | inl over ↦ rw (over, on_page) tt
        | inr within_max ↦
            rw (within_max, on_page)
              (IsBounded-cookie max (combine before result) more _ s (ground arith)
                λ cookie. f cookie _)
      ]

  IsBounded-pages :
      (rounds : ℕ) (conn : Conn) (request : SearchRequest) (size max : ℕ) (cookie : Text)
      (before : SearchResult) (s : Session)
      → IsBounded max (search_pages lib net c rounds conn request size max cookie before s)
  unfolding search_pages
  IsBounded-pages zero conn request size max cookie before s = tt
  IsBounded-pages (suc rounds) conn request size max cookie before s =
      IsBounded-page max before _ _ _
        λ cookie' all. IsBounded-pages rounds conn request size max cookie' all _

  -- Whatever the directory answers, a paged search that gives a result gives at most as many entries
  -- as the limit says.
  pub paging_bound :
      (conn : Conn) (request : SearchRequest) (size max : ℕ) (s : Session)
      → IsBounded max (search_with_paging_limit lib net c conn request size (pos max) s)
  unfolding search_with_paging_limit
  paging_bound conn request size zero s = tt
  paging_bound conn request size (suc n) s =
      IsBounded-pages net.rounds conn request size (suc n) [] no_result s

  ended_cookie :
      (all : SearchResult) (more : Text → SearchResult → Action SearchResult)
      (found_cookie : Option (Option Text)) (s : Session)
      → ((cookie : Text) → HasEnded (more cookie all s))
      → HasEnded (on_cookie lib net c all more found_cookie s)
  unfolding on_cookie
  ended_cookie all more none s f = tt
  ended_cookie all more (some none) s f = tt
  ended_cookie all more (some (some [])) s f = tt
  ended_cookie all more (some (some (x ∷ cookie))) s f = f (x ∷ cookie)

  ended_page :
      (max : ℕ) (before : SearchResult) (more : Text → SearchResult → Action SearchResult)
      (reply : SearchReply) (s : Session)
      → HasProgress reply
      → ((cookie : Text) (all : SearchResult)
          → length before.entries < length all.entries
          → length all.entries ≤ max
          → HasEnded (more cookie all s))
      → HasEnded (on_page lib net c max before more reply s)
  unfolding on_page
  ended_page max before more (broken none e) s p f = p
  ended_page max before more (broken (some result) e) s p f =
      elim (Bool-cases (ltb max (length (before.entries ++ result.entries)))) [
        | inl over ↦ rw (over, on_page) λ x. absurd (cc x)
        | inr within_max ↦ rw (within_max, on_page) p
      ]
  ended_page max before more (found result) s p f =
      elim (Bool-cases (ltb max (length (before.entries ++ result.entries)))) [
        | inl over ↦ rw (over, on_page) λ x. absurd (cc x)
        | inr within_max ↦
            rw (within_max, on_page)
              (ended_cookie (combine before result) more _ s λ cookie.
                f cookie _ (ground (arith, length-append before.entries result.entries))
                  (ground arith))
      ]

  ended_pages :
      ((log : List Event) (conn : Conn) (request : SearchRequest)
        → HasProgress (net.search log conn request))
      → (rounds : ℕ) (conn : Conn) (request : SearchRequest) (size max : ℕ) (cookie : Text)
        (before : SearchResult) (s : Session)
      → max < length before.entries + rounds
      → length before.entries ≤ max
      → HasEnded (search_pages lib net c rounds conn request size max cookie before s)
  unfolding search_pages raw_search
  ended_pages p zero conn request size max cookie before s lt le = absurd (omega arith)
  ended_pages p (suc rounds) conn request size max cookie before s lt le =
      ended_page max before _ _ _ (p _ _ _) λ cookie' all more_entries le'.
        ended_pages p rounds conn request size max cookie' all _ (omega arith) le'

  -- When every page that the directory gives has an entry, a paged search ends within a round more
  -- than the limit on the entries.
  pub paging_ends :
      (conn : Conn) (request : SearchRequest) (size max : ℕ) (s : Session)
      → ((log : List Event) (conn' : Conn) (request' : SearchRequest)
          → HasProgress (net.search log conn' request'))
      → max < net.rounds
      → HasEnded (search_with_paging_limit lib net c conn request size (pos max) s)
  unfolding search_with_paging_limit
  paging_ends conn request size zero s p lt = λ x. absurd (cc x)
  paging_ends conn request size (suc n) s p lt =
      ended_pages p net.rounds conn request size (suc n) [] no_result s (omega arith) (omega arith)

  spun_pages :
      (page : SearchResult) (x : ℕ) (cookie : Text)
      → ((log : List Event) (conn : Conn) (request : SearchRequest)
          → net.search log conn request ≡ found page)
      → page.entries ≡ []
      → lib.find_paging page.controls ≡ some (some (x ∷ cookie))
      → (rounds : ℕ) (conn : Conn) (request : SearchRequest) (size max : ℕ) (cookie' : Text)
        (before : SearchResult) (s : Session)
      → before.entries ≡ []
      → (search_pages lib net c rounds conn request size max cookie' before s).0
        ≡ failed out_of_rounds
  unfolding search_pages raw_search on_page on_cookie
  spun_pages page x cookie p empty more zero conn request size max cookie' before s none_yet = refl
  spun_pages page x cookie p empty more (suc rounds) conn request size max cookie' before s
        none_yet =
      let no_entry : before.entries ++ page.entries ≡ [] = rw (none_yet, empty) refl in
      let fits : ltb max (length (before.entries ++ page.entries)) ≡ false =
        rw no_entry (ground arith) in
      rw (p _ _ _, on_page)
        (rw (fits, on_cookie)
          (rw (more, on_cookie)
            (spun_pages page x cookie p empty more rounds conn request size max (x ∷ cookie) _ _
              no_entry)))

  -- When every page has no entry and a cookie for the next, the loop does not end in any number of
  -- rounds: the limit on the entries, which is positive, is not met, and nothing else ends it.
  pub empty_pages_spin :
      (page : SearchResult) (x : ℕ) (cookie : Text)
      → ((log : List Event) (conn : Conn) (request : SearchRequest)
          → net.search log conn request ≡ found page)
      → page.entries ≡ []
      → lib.find_paging page.controls ≡ some (some (x ∷ cookie))
      → (rounds : ℕ) (conn : Conn) (request : SearchRequest) (size max : ℕ) (s : Session)
      → (search_pages lib net c rounds conn request size max [] no_result s).0
        ≡ failed out_of_rounds
  empty_pages_spin page x cookie p empty more rounds conn request size max s =
      spun_pages page x cookie p empty more rounds conn request size max [] no_result s refl
