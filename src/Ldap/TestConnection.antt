-- ===== src/Ldap/TestConnection.antt =====
-- The test of a connection of internal/adapters/ldap/client.go, and its records in
-- internal/core/directory/directory.go.
use authrim_wordwarden.Prelude.{
  not, Bool, true, false, [], ◌∷◌, Option, none, some, Text, lit, text_eq, ◌==◌, is_nil,
  if◌then◌else◌,
}
use authrim_wordwarden.Directory.{Subject, other}
use authrim_wordwarden.Username.{preprocess, accepted, rejected}
use authrim_wordwarden.Ldap.{Library, Client}
use authrim_wordwarden.Ldap.Network.{Conn, Failure, known, Network, Session, done, failed, Action}
use authrim_wordwarden.Ldap.Connections.{
  service_search_available, require_service_search, bind_service, bind_user,
  restore_service_bind_for_reuse, acquire_conn, release_conn,
}
use authrim_wordwarden.Ldap.Verify.{
  subject_id, lookup_mode, is_done, user_dn_from_template, resolve_user_with_attributes,
}

pub record TestConnectionRequest : Type 0 where
  pub username : Text
  pub password : Text
  pub test_password : Bool
  pub allow_insecure : Bool

pub record TestConnectionResult : Type 0 where
  pub tls_verified : Bool
  pub service_bound : Bool
  pub user_resolved : Bool
  pub password_ok : Bool
  pub subject : Subject

-- The results of `TestConnection`, which can come with an error.
pub record TestReply : Type 0 where
  pub result : TestConnectionResult
  pub error : Option Failure

-- A part of the test: the reply, and whether the connection may go back to the pool.
abbrev pub Probe : Type 0
Probe = Session → (TestReply × Bool) × Session

abbrev pub no_test_result : TestConnectionResult
no_test_result = record {
  tls_verified = false;
  service_bound = false;
  user_resolved = false;
  password_ok = false;
  subject = record { directory_id = []; username = [] };
}

abbrev pub answer : TestConnectionResult → Bool → Probe
answer result reusable s = ((record { result = result; error = none }, reusable), s)

-- `if err != nil { return result, err }` behind a part.
unfoldable pub or_stop {ℓ} : {A : Type ℓ} → TestConnectionResult → Action A → (A → Probe) → Probe
or_stop result part next s =
    let r = part s in
    elim r.0 [
      | done a ↦ next a r.1
      | failed e ↦ ((record { result = result; error = some e }, false), r.1)
    ]

abbrev resolved_as : TestConnectionResult → (id username : Text) → TestConnectionResult
resolved_as result id username = record result {
  user_resolved = true;
  subject = record { directory_id = id; username = username };
}

module _ (lib : Library) (net : Network) (c : Client) where
  -- `request.TestPassword` and the lines under it.
  unfoldable pub test_bind : Conn → Text → TestConnectionRequest → TestConnectionResult → Probe
  test_bind conn name request result =
      if not request.test_password
      then answer result false
      else or_stop result (bind_user lib net c conn name request.password) λ ok s.
        let restored = restore_service_bind_for_reuse lib net c conn s in
        answer (record result { password_ok = true }) (is_done restored.0) restored.1

  -- With no user name.
  unfoldable pub test_service : Conn → TestConnectionResult → Probe
  test_service conn result =
      if not (service_search_available c)
      then answer result false
      else or_stop no_test_result (bind_service lib net c conn)
          λ ok. answer (record result { service_bound = true }) true

  -- The user is resolved by `resolveUser`, whose name for the bind is the subject's identifier.
  unfoldable pub test_search_then_bind :
      Conn → Text → TestConnectionRequest → TestConnectionResult → Probe
  test_search_then_bind conn username request result =
      or_stop no_test_result (bind_service lib net c conn) λ ok.
        let bound_result = record result { service_bound = true } in
        or_stop bound_result (resolve_user_with_attributes lib net c conn username (lit "dn" ∷ []))
          λ user.
            test_bind conn (subject_id user) request
              (resolved_as bound_result (subject_id user) username)

  unfoldable pub test_dn_template :
      Conn → Text → TestConnectionRequest → TestConnectionResult → Probe
  test_dn_template conn username request result =
      let dn = user_dn_from_template lib net c username in
      test_bind conn dn request (resolved_as result dn username)

  unfoldable pub test_direct_bind :
      Conn → Text → TestConnectionRequest → TestConnectionResult → Probe
  test_direct_bind conn username request result =
      or_stop result (require_service_search c) λ available.
        or_stop no_test_result (bind_service lib net c conn) λ ok.
          let bound_result = record result { service_bound = true } in
          or_stop bound_result (resolve_user_with_attributes lib net c conn username []) λ user.
            test_bind conn username request (resolved_as bound_result (subject_id user) username)

  unfoldable pub test_on : Conn → TestConnectionRequest → Probe
  test_on conn request s =
      let result = record no_test_result { tls_verified = not request.allow_insecure } in
      let stopped : Failure → (TestReply × Bool) × Session =
        λ e. ((record { result = result; error = some e }, false), s) in
      if is_nil request.username
      then test_service conn result s
      else elim (preprocess lib.unicode lib.nfkc request.username c.config.username) [
        | rejected e ↦ stopped (known other)
        | accepted username format ↦
            if lookup_mode c == lit "search_then_bind"
            then test_search_then_bind conn username request result s
            else if lookup_mode c == lit "dn_template"
            then test_dn_template conn username request result s
            else if lookup_mode c == lit "direct_bind"
            then test_direct_bind conn username request result s
            else stopped (known other)
      ]

  -- The deferred `releaseConn` runs on every return behind `acquireConn`.
  unfoldable pub test_connection : TestConnectionRequest → Session → TestReply × Session
  test_connection request s =
      let r = acquire_conn lib net c request.allow_insecure s in
      elim r.0 [
        | failed e ↦ (record { result = no_test_result; error = some e }, r.1)
        | done conn ↦ let p = test_on conn request r.1 in (p.0.0, release_conn c conn p.0.1 p.1)
      ]
