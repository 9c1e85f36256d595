-- ===== src/Ldap/Searching.antt =====
-- The searches of internal/adapters/ldap/client.go stay in the frame of their connection.
use authrim_wordwarden.Prelude.{
  ℕ, suc, inl, inr, refl, false, not, List, [], ◌∷◌, Option, none, some, Text, text_eq, is_nil, ltb,
  Option-cases, ℤ, pos, negsuc, length, zero,
}
use authrim_wordwarden.Ldap.{Library, Client}
use authrim_wordwarden.Ldap.Network.{
  Conn, searched, Network, Session, Outcome, done, failed, Action, SearchRequest, SearchResult,
  SearchReply, found, broken,
}
use authrim_wordwarden.Ldap.Connections.{within}
use authrim_wordwarden.Ldap.Search.{
  raw_search, search_pages, search_with_paging_limit, search_plain, search_once, closing,
  follow_referrals, allowed_referral, search, combine, on_page, on_cookie, search_referral,
}
use authrim_wordwarden.Ldap.Frame.{
  last_bind, Frame, Framed, Frame-refl, Frame-trans, Frame-note, Framed-bind,
}
use authrim_wordwarden.Ldap.Parts.{Framed-if, Framed-close, Framed-bind_service}
use authrim_wordwarden.Ldap.Opening.{Opens-dial_endpoint, Framed-own}

module _ (lib : Library) (net : Network) (c : Client) where
  Framed-on_cookie :
      (conn : Conn) (all : SearchResult) (more : Text → SearchResult → Action SearchResult)
      (control : Option (Option Text))
      → ((cookie : Text) (r : SearchResult) → Framed conn (more cookie r))
      → Framed conn (on_cookie lib net c all more control)
  unfolding on_cookie
  Framed-on_cookie conn all more none f = Frame-refl conn
  Framed-on_cookie conn all more (some none) f = Frame-refl conn
  Framed-on_cookie conn all more (some (some cookie)) f =
      Framed-if conn (is_nil cookie) _ _ (Frame-refl conn) (f cookie all)

  Framed-on_page :
      (conn : Conn) (max : ℕ) (combined : SearchResult)
      (more : Text → SearchResult → Action SearchResult) (reply : SearchReply)
      → ((cookie : Text) (r : SearchResult) → Framed conn (more cookie r))
      → Framed conn (on_page lib net c max combined more reply)
  unfolding on_page
  Framed-on_page conn max combined more (broken none e) f = Frame-refl conn
  Framed-on_page conn max combined more (broken (some result) e) f =
      Framed-if conn (ltb max (length (combine combined result).entries)) _ _ (Frame-refl conn)
        (Frame-refl conn)
  Framed-on_page conn max combined more (found result) f =
      Framed-if conn (ltb max (length (combine combined result).entries)) _ _ (Frame-refl conn)
        (Framed-on_cookie conn _ more _ f)

  Frame-raw_search :
      (conn : Conn) (request : SearchRequest) (s : Session)
      → Frame conn s (raw_search lib net c conn request s).1
  unfolding raw_search last_bind
  Frame-raw_search conn request s = Frame-note conn (searched conn request) s (λ d differs. refl)

  Framed-search_pages :
      (rounds : ℕ) (conn : Conn) (request : SearchRequest) (size max : ℕ) (cookie : Text)
      (combined : SearchResult)
      → Framed conn (search_pages lib net c rounds conn request size max cookie combined)
  unfolding search_pages
  Framed-search_pages zero conn request size max cookie combined s = Frame-refl conn s
  Framed-search_pages (suc rounds) conn request size max cookie combined s =
      Frame-trans (Frame-raw_search conn _ s) (
        Framed-on_page conn max combined _ _
          (λ cookie' all. Framed-search_pages rounds conn request size max cookie' all) _)

  Framed-search_with_paging_limit :
      (conn : Conn) (request : SearchRequest) (size : ℕ) (max : ℤ)
      → Framed conn (search_with_paging_limit lib net c conn request size max)
  unfolding search_with_paging_limit
  Framed-search_with_paging_limit conn request size (pos zero) = Frame-refl conn
  Framed-search_with_paging_limit conn request size (pos (suc n)) =
      Framed-search_pages net.rounds conn request size (suc n) [] _
  Framed-search_with_paging_limit conn request size (negsuc n) = Frame-refl conn

  plain_from :
      (conn : Conn) (s t : Session) (reply : SearchReply)
      → Frame conn s t
      → Frame conn s
          (elim reply as (λ o. Outcome SearchResult × Session) [
            | found result ↦ (done result, t)
            | broken result e ↦ (failed e, t)
          ]).1
  plain_from conn s t (found result) f = f
  plain_from conn s t (broken result e) f = f

  Framed-search_once :
      (conn : Conn) (request : SearchRequest) → Framed conn (search_once lib net c conn request)
  unfolding search_once search_plain within
  Framed-search_once conn request =
      Framed-if conn (not c.config.directory_profile.paged_search.enabled) _ _
        (λ s. plain_from conn s _ _ (Frame-raw_search conn request s))
        (Framed-bind conn _ _ (λ s. Frame-refl conn s)
          λ timeout. Framed-search_with_paging_limit conn _ _ _)

  Framed-closing {κ} :
      {S : Type κ} (conn : Conn) (part : Action S)
      → Framed conn part
      → Framed conn (closing lib net c conn part)
  unfolding closing
  Framed-closing conn part f s = Frame-trans (f s) (Framed-close conn _)

  Framed-search_referral :
      (conn : Conn) (request : SearchRequest) (endpoint base : Text)
      → Framed conn (search_referral lib net c request endpoint base)
  unfolding search_referral
  Framed-search_referral conn request endpoint base =
      Framed-own conn _ _ (Opens-dial_endpoint lib net c endpoint false) λ fresh.
        Framed-closing fresh _ (
          Framed-bind fresh _ _ (Framed-bind_service lib net c fresh)
            λ ignored. Framed-search_once fresh _)

  Framed-follow_referrals :
      (conn : Conn) (request : SearchRequest) (referrals : List Text) (combined : SearchResult)
      → Framed conn (follow_referrals lib net c request referrals combined)
  unfolding follow_referrals
  Framed-follow_referrals conn request [] combined = Frame-refl conn
  Framed-follow_referrals conn request (referral ∷ referrals) combined =
      elim (Option-cases (allowed_referral lib c.config referral)) [
        | inl e ↦ rw (e, follow_referrals) (Frame-refl conn)
        | inr ((endpoint, base), e) ↦
            rw (e, follow_referrals)
              (Framed-bind conn _ _ (Framed-search_referral conn request endpoint base) λ result.
                Framed-if conn (is_nil (combine combined result).referrals) _ _
                  (Framed-follow_referrals conn request referrals (combine combined result))
                  (Frame-refl conn))
      ]

  pub Framed-search :
      (conn : Conn) (request : SearchRequest) → Framed conn (search lib net c conn request)
  unfolding search
  Framed-search conn request = Framed-bind conn _ _ (Framed-search_once conn request) λ result.
      Framed-if conn (is_nil result.referrals) _ _ (Frame-refl conn) (
        Framed-if conn _ _ _ (Frame-refl conn) (
          Framed-bind conn _ _ (Framed-follow_referrals conn request result.referrals _)
            λ followed. Frame-refl conn))
