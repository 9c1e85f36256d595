-- ===== src/Ldap/Search.antt =====
-- Searches of internal/adapters/ldap/client.go: pages and referrals.
use authrim_wordwarden.Prelude.{
  ℕ, zero, suc, ◌-◌, ◌%◌, ◌||◌, not, Bool, true, false, List, [], ◌∷◌, ◌++◌, Option, none, some,
  Text, lit, text_eq, ◌==◌, is_nil, if◌then◌else◌, length, ltb, ℤ, pos, negsuc, keep_if,
}
use authrim_wordwarden.GoText.{to_lower}
use authrim_wordwarden.GoText.Encoding.{trim_prefix}
use authrim_wordwarden.GoTime.{millis}
use authrim_wordwarden.GoUrl.{Url}
use authrim_wordwarden.Directory.{directory_unavailable, directory_referral}
use authrim_wordwarden.Config.{LdapConfig}
use authrim_wordwarden.Ldap.{Library, Client}
use authrim_wordwarden.Ldap.Network.{
  Conn, known, out_of_rounds, Control, paging, other_control, SearchRequest, SearchResult,
  SearchReply, found, broken, searched, Network, Session, done, failed, Action, give, fail, ◌>>=◌,
  ◌>>◌, note,
}
use authrim_wordwarden.Ldap.Timeouts.{ldap_time_limit_seconds}
use authrim_wordwarden.Ldap.Connections.{within, bind_service, dial_endpoint, close}

-- `uint32(n)`
abbrev pub uint32 : ℤ → ℕ
uint32 (pos n) = n % 0x100000000
uint32 (negsuc n) = 0xffffffff - n % 0x100000000

abbrev is_no_paging : Control → Bool
is_no_paging (paging size cookie) = false
is_no_paging (other_control name) = true

unfoldable pub without_paging_control : List Control → List Control
without_paging_control = keep_if is_no_paging

abbrev pub no_result : SearchResult
no_result = record { entries = []; referrals = []; controls = [] }

-- The three lists, appended.
abbrev pub combine : SearchResult → SearchResult → SearchResult
combine a b = record {
  entries = a.entries ++ b.entries;
  referrals = a.referrals ++ b.referrals;
  controls = a.controls ++ b.controls;
}

module _ (lib : Library) (cfg : LdapConfig) where
  unfoldable pub referral_scheme_allowed : Text → Bool
  referral_scheme_allowed scheme =
      if cfg.tls.start_tls then scheme == lit "ldap" else scheme == lit "ldaps"

  unfoldable pub referral_endpoint : Url → Text
  referral_endpoint url = url.scheme ++ (lit "://" ++ to_lower lib.unicode url.host)

  -- The endpoint of a URL that a referral may name.
  unfoldable pub allowed_endpoint : Text → Option Text
  allowed_endpoint raw = elim (lib.urls.parse raw) [
    | none ↦ none
    | some url ↦
        if is_nil url.host || not (referral_scheme_allowed url.scheme)
        then none
        else some (referral_endpoint url)
  ]

  -- The loop over the allowed URLs.
  unfoldable pub is_listed : Text → List Text → Bool
  is_listed endpoint [] = false
  is_listed endpoint (allowed ∷ rest) =
      let later = is_listed endpoint rest in
      elim (allowed_endpoint allowed) [
        | none ↦ later
        | some e ↦ if e == endpoint then true else later
      ]

  unfoldable pub referral_base : Url → Text
  referral_base url =
      let base = trim_prefix url.escaped_path (lit "/") in
      if is_nil base
      then base
      else elim (lib.urls.path_unescape base) [ none ↦ base | some unescaped ↦ unescaped ]

  -- The endpoint and the base of a referral that is allowed.
  unfoldable pub allowed_referral : Text → Option (Text × Text)
  allowed_referral raw = elim (lib.urls.parse raw) [
    | none ↦ none
    | some url ↦
        let endpoint = referral_endpoint url in
        if is_nil url.host || not (referral_scheme_allowed url.scheme)
        then none
        else if is_listed endpoint cfg.referrals.allowed_urls
        then some (endpoint, referral_base url)
        else none
  ]

module _ (lib : Library) (net : Network) (c : Client) where
  -- `conn.Search`
  unfoldable pub raw_search : Conn → SearchRequest → Session → SearchReply × Session
  raw_search conn request s = (net.search s.log conn request, note (searched conn request) s)

  -- What a page's control says: the end, or the cookie of the next page.
  unfoldable pub on_cookie :
      SearchResult
      → (Text → SearchResult → Action SearchResult)
      → Option (Option Text)
      → Action SearchResult
  on_cookie all more none = give all
  on_cookie all more (some none) = give all
  on_cookie all more (some (some cookie)) = if is_nil cookie then give all else more cookie all

  -- One round of the loop over the pages, with the results so far and what goes on with the next
  -- page. A result that comes with an error is counted, and the error for too many entries goes
  -- before its own.
  unfoldable pub on_page :
      ℕ
      → SearchResult
      → (Text → SearchResult → Action SearchResult)
      → SearchReply
      → Action SearchResult
  on_page max combined more (broken none e) = fail e
  on_page max combined more (broken (some result) e) =
      if ltb max (length (combine combined result).entries)
      then fail (known directory_unavailable)
      else fail e
  on_page max combined more (found result) =
      if ltb max (length (combine combined result).entries)
      then fail (known directory_unavailable)
      else on_cookie (combine combined result) more (lib.find_paging result.controls)

  unfoldable pub search_pages :
      ℕ → Conn → SearchRequest → ℕ → ℕ → Text → SearchResult → Action SearchResult
  search_pages zero conn request size max cookie combined s = (failed out_of_rounds, s)
  search_pages (suc rounds) conn request size max cookie combined s =
      let controls = without_paging_control request.controls ++ paging size cookie ∷ [] in
      let r = raw_search conn (record request { controls = controls }) s in
      on_page max combined (λ cookie' all. search_pages rounds conn request size max cookie' all)
        r.0 r.1

  unfoldable pub search_with_paging_limit : Conn → SearchRequest → ℕ → ℤ → Action SearchResult
  search_with_paging_limit conn request size (pos zero) = fail (known directory_unavailable)
  search_with_paging_limit conn request size (pos (suc n)) =
      search_pages net.rounds conn request size (suc n) [] no_result
  search_with_paging_limit conn request size (negsuc n) = fail (known directory_unavailable)

  -- One search with no pages.
  unfoldable pub search_plain : Conn → SearchRequest → Action SearchResult
  search_plain conn request s =
      let r = raw_search conn request s in
      elim r.0 [ found result ↦ (done result, r.1) | broken result e ↦ (failed e, r.1) ]

  -- The time limit and the controls that this writes into the request are written again by every
  -- further search with it.
  unfoldable pub search_once : Conn → SearchRequest → Action SearchResult
  search_once conn request =
      let paged = c.config.directory_profile.paged_search in
      if not paged.enabled then search_plain conn request else do
        timeout ← within lib net c paged.timeout_ms (millis paged.timeout_ms)
        search_with_paging_limit conn
            (record request { time_limit = ldap_time_limit_seconds timeout })
            (uint32 paged.page_size) paged.max_entries

  -- `defer conn.Close()`
  unfoldable pub closing {ℓ} : {A : Type ℓ} → Conn → Action A → Action A
  closing conn part s = let r = part s in (r.0, close conn r.1)

  abbrev pub at_base : SearchRequest → Text → SearchRequest
  at_base request base = if is_nil base then request else record request { base_dn = base }

  -- The search at the endpoint of a referral, on a connection of its own.
  unfoldable pub search_referral : SearchRequest → Text → Text → Action SearchResult
  search_referral request endpoint base = do
    conn ← dial_endpoint lib net c endpoint false
    closing conn (do bind_service lib net c conn; search_once conn (at_base request base))

  unfoldable pub follow_referrals : SearchRequest → List Text → SearchResult → Action SearchResult
  follow_referrals request [] combined = give combined
  follow_referrals request (referral ∷ referrals) combined =
      elim (allowed_referral lib c.config referral) [
        | none ↦ fail (known directory_referral)
        | some (endpoint, base) ↦ do
          result ← search_referral request endpoint base
          let both = combine combined result
          if is_nil both.referrals
              then follow_referrals request referrals both
              else fail (known directory_referral)
      ]

  unfoldable pub search : Conn → SearchRequest → Action SearchResult
  search conn request = do
    result ← search_once conn request
    if is_nil result.referrals
        then give result
        else if not (c.config.referrals.mode == lit "allowlist")
            || not c.config.referrals.allow_service_bind_reuse
        then fail (known directory_referral)
        else do
          followed ← follow_referrals request result.referrals no_result
          give (record result {
            entries = result.entries ++ followed.entries;
            referrals = result.referrals ++ followed.referrals;
          })
