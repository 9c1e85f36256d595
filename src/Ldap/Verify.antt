-- ===== src/Ldap/Verify.antt =====
-- The verification of a password against the directory, of internal/adapters/ldap/client.go.
use authrim_wordwarden.Prelude.{
  ◌||◌, not, Bool, true, false, List, [], ◌∷◌, Option, none, some, Text, lit, text_eq, ◌==◌, is_nil,
  if◌then◌else◌, pos,
}
use authrim_wordwarden.GoText.Encoding.{replace_all}
use authrim_wordwarden.Directory.{
  GroupFact, VerifyPasswordRequest, VerifyPasswordResult, failed_verification,
  successful_verification, user_not_found, ambiguous_user, other, reason_invalid_credentials,
}
use authrim_wordwarden.Username.{preprocess, accepted, rejected}
use authrim_wordwarden.Ldap.{Library, Client}
use authrim_wordwarden.Ldap.Network.{
  Conn, Failure, known, Entry, base_object, whole_subtree, Network, Outcome, done, failed, Action,
  give, fail, ◌>>=◌, ◌>>◌, attempt,
}
use authrim_wordwarden.Ldap.Errors.{
  credential_verdict_from_bind_error, user_resolution_failure_result,
}
use authrim_wordwarden.Ldap.Timeouts.{ldap_time_limit_seconds}
use authrim_wordwarden.Ldap.Attributes.{search_attributes, entry_subject_value, entry_attributes}
use authrim_wordwarden.Ldap.Connections.{
  set_operation_timeout, normalizing, service_search_available, require_service_search,
  bind_service, bind_user, restore_service_bind_for_reuse, acquire_conn, release_conn,
}
use authrim_wordwarden.Ldap.Search.{search}
use authrim_wordwarden.Ldap.Groups.{group_facts}

pub record ResolvedUser : Type 0 where
  pub dn : Text
  pub subject_value : Text
  pub attributes : List (Text × List Text)
  pub group_facts : List GroupFact

unfoldable pub subject_id : ResolvedUser → Text
subject_id user = if is_nil user.subject_value then user.dn else user.subject_value

unfoldable pub lookup_mode : Client → Text
lookup_mode c = if is_nil c.config.lookup_mode then lit "search_then_bind" else c.config.lookup_mode

unfoldable pub single_search_entry : List Entry → Action Entry
single_search_entry [] = fail (known user_not_found)
single_search_entry (entry ∷ []) = give entry
single_search_entry (entry ∷ second ∷ rest) = fail (known ambiguous_user)

-- An error that is a verdict becomes one; any other stays an error.
abbrev pub verdict_or {ℓ} :
    {A : Type ℓ} → Option VerifyPasswordResult → (VerifyPasswordResult → A) → Failure → Action A
verdict_or none f e = fail e
verdict_or (some r) f e = give (f r)

-- A verdict, and whether the connection may go back to the pool.
abbrev pub Verdict : Type 0
Verdict = VerifyPasswordResult × Bool

abbrev pub not_reusable : VerifyPasswordResult → Verdict
not_reusable r = (r, false)

abbrev pub is_done {ℓ} : {A : Type ℓ} → Outcome A → Bool
is_done (done a) = true
is_done (failed e) = false

module _ (lib : Library) (net : Network) (c : Client) where
  unfoldable pub user_dn_from_template : Text → Text
  user_dn_from_template username =
      replace_all c.config.dn_template (lit "{username}") (lib.escape_dn username)

  -- `conn.Search` and its error, through `normalizeLDAPError`; at most `limit` entries are wanted.
  unfoldable pub resolve_user_with_attributes : Conn → Text → List Text → Action ResolvedUser
  resolve_user_with_attributes conn username requested = do
    timeout ← set_operation_timeout lib net c conn c.timeouts.ldap_search_ms (pos 1000000000)
    result ← normalizing c (
        search lib net c conn (record {
          base_dn = c.config.base_dn;
          scope = whole_subtree;
          size_limit = pos 2;
          time_limit = ldap_time_limit_seconds timeout;
          filter = replace_all c.config.user_filter (lit "{username}") (lib.escape_filter username);
          attributes = search_attributes c.config requested;
          controls = [];
        }))
    entry ← single_search_entry result.entries
    λ s.
        let g = group_facts lib net c conn entry requested s in
        (
          done (record {
            dn = entry.dn;
            subject_value = entry_subject_value lib c.config entry;
            attributes = entry_attributes lib c.config entry requested;
            group_facts = g.0;
          }),
          g.1,
        )

  unfoldable pub resolve_attributes_by_dn :
      Conn → Text → List Text → Action (List (Text × List Text))
  resolve_attributes_by_dn conn dn requested = do
    timeout ← set_operation_timeout lib net c conn c.timeouts.ldap_search_ms (pos 1000000000)
    result ← normalizing c (
        search lib net c conn (record {
          base_dn = dn;
          scope = base_object;
          size_limit = pos 1;
          time_limit = ldap_time_limit_seconds timeout;
          filter = lit "(objectClass=*)";
          attributes = search_attributes c.config requested;
          controls = [];
        }))
    elim result.entries [
      | [] ↦ fail (known user_not_found)
      | entry ∷ rest ↦ give (entry_attributes lib c.config entry requested)
    ]

  abbrev is_user_not_found : Failure → Bool
  is_user_not_found (known user_not_found) = true
  is_user_not_found _ = false

  unfoldable pub resolve_attributes_after_successful_bind :
      Conn → Text → Text → List Text → Action (List (Text × List Text))
  resolve_attributes_after_successful_bind conn user_dn username requested =
      if is_nil (search_attributes c.config requested) || not (service_search_available c)
      then give []
      else do
        bind_service lib net c conn
        by_dn ← attempt (resolve_attributes_by_dn conn user_dn requested)
        elim by_dn [
          | done attributes ↦ give attributes
          | failed e ↦ if not (is_user_not_found e) then fail e else do
            user ← attempt (resolve_user_with_attributes conn username requested)
            elim user [
              | done u ↦ give u.attributes
              | failed e' ↦ if is_user_not_found e' then give [] else fail e'
            ]
        ]

  unfoldable pub resolve_direct_bind_user : Conn → Text → List Text → Action ResolvedUser
  resolve_direct_bind_user conn username requested = do
    require_service_search c
    bind_service lib net c conn
    resolve_user_with_attributes conn username requested

  -- Restores the service's bind, and gives the success.
  unfoldable pub succeed :
      Conn → Text → Text → List (Text × List Text) → List (List GroupFact) → Action Verdict
  succeed conn id username attributes facts = do
    restored ← attempt (restore_service_bind_for_reuse lib net c conn)
    give (
      successful_verification (record { directory_id = id; username = username }) attributes facts,
      is_done restored,
    )

  -- Behind the bind of the user: an error is a verdict on the credentials, or stays an error.
  unfoldable pub on_bind : Action Verdict → Outcome (Unit {0}) → Action Verdict
  on_bind next (failed e) = verdict_or (credential_verdict_from_bind_error e) not_reusable e
  on_bind next (done ok) = next

  unfoldable pub succeed_as : Conn → Text → ResolvedUser → Action Verdict
  succeed_as conn username user =
      succeed conn (subject_id user) username user.attributes (user.group_facts ∷ [])

  -- Behind the search for the user.
  unfoldable pub bind_resolved :
      Conn → Text → VerifyPasswordRequest → Outcome ResolvedUser → Action Verdict
  bind_resolved conn username request (failed e) =
      verdict_or (user_resolution_failure_result e) not_reusable e
  bind_resolved conn username request (done user) = do
    b ← attempt (bind_user lib net c conn user.dn request.password)
    on_bind (succeed_as conn username user) b

  unfoldable pub verify_search_then_bind : Conn → Text → VerifyPasswordRequest → Action Verdict
  verify_search_then_bind conn username request = do
    bind_service lib net c conn
    user ← attempt (resolve_user_with_attributes conn username request.attribute_names)
    bind_resolved conn username request user

  unfoldable pub verify_dn_template : Conn → Text → VerifyPasswordRequest → Action Verdict
  verify_dn_template conn username request = do
    let user_dn = user_dn_from_template username
    b ← attempt (bind_user lib net c conn user_dn request.password)
    on_bind
        (do
          attributes ←
              resolve_attributes_after_successful_bind conn user_dn username request.attribute_names
          succeed conn user_dn username attributes [])
        b

  -- Behind the search for a user who is bound.
  unfoldable pub succeed_resolved : Conn → Text → Outcome ResolvedUser → Action Verdict
  succeed_resolved conn username (failed e) =
      verdict_or (user_resolution_failure_result e) not_reusable e
  succeed_resolved conn username (done user) = succeed_as conn username user

  unfoldable pub verify_direct_bind : Conn → Text → VerifyPasswordRequest → Action Verdict
  verify_direct_bind conn username request = do
    b ← attempt (bind_user lib net c conn username request.password)
    on_bind
        (do
          user ← attempt (resolve_direct_bind_user conn username request.attribute_names)
          succeed_resolved conn username user)
        b

  unfoldable pub verify_on : Conn → Text → VerifyPasswordRequest → Action Verdict
  verify_on conn username request =
      if lookup_mode c == lit "search_then_bind"
      then verify_search_then_bind conn username request
      else if lookup_mode c == lit "dn_template"
      then verify_dn_template conn username request
      else if lookup_mode c == lit "direct_bind"
      then verify_direct_bind conn username request
      else fail (known other)

  -- Behind `acquireConn`, with the deferred `releaseConn`.
  unfoldable pub verify_and_release :
      Conn → Text → VerifyPasswordRequest → Action VerifyPasswordResult
  verify_and_release conn username request s =
      let r = verify_on conn username request s in
      elim r.0 [
        | failed e ↦ (failed e, release_conn c conn false r.1)
        | done v ↦ (done v.0, release_conn c conn v.1 r.1)
      ]

  unfoldable pub verify_password : VerifyPasswordRequest → Action VerifyPasswordResult
  verify_password request =
      if is_nil request.password
      then give (failed_verification reason_invalid_credentials)
      else elim (preprocess lib.unicode lib.nfkc request.username c.config.username) [
        | rejected e ↦ give (failed_verification reason_invalid_credentials)
        | accepted username format ↦ do
          conn ← acquire_conn lib net c false
          verify_and_release conn username request
      ]
