-- ===== src/Commands/LdapTest.antt =====
-- The command `ldap test` of internal/app/command.go.
use authrim_wordwarden.Prelude.{
  Bool, true, false, ◌&&◌, List, [], ◌∷◌, ◌++◌, Option, none, some, Text, lit, is_nil,
  if◌then◌else◌,
}
use authrim_wordwarden.Ldap.{Library, Client}
use authrim_wordwarden.Ldap.Network.{Network, Session}
use authrim_wordwarden.Ldap.TestConnection.{
  TestConnectionRequest, TestConnectionResult, TestReply, test_connection,
}
use authrim_wordwarden.Config.{Config, TenantConfig}
use authrim_wordwarden.Config.Patterns.{Platform}
use authrim_wordwarden.Config.Loading.{load_file}
use authrim_wordwarden.Secrets.Resolving.{Host, resolve_optional_secret_bytes}
use authrim_wordwarden.Commands.{find_tenant}
use authrim_wordwarden.Commands.Inputs.{read_password}

pub record LdapTestFlags : Type 0 where
  pub tenant_id : Text
  pub username : Text
  pub password_stdin : Bool
  pub allow_insecure : Bool

-- The request, where a password that is read needs a user name.
unfoldable pub test_request : LdapTestFlags → Text → Option TestConnectionRequest
test_request flags input =
    if flags.password_stdin && is_nil flags.username
    then none
    else some (record {
      username = flags.username;
      password = if flags.password_stdin then read_password input else [];
      test_password = flags.password_stdin;
      allow_insecure = flags.allow_insecure;
    })

-- Behind the search for the tenant.
unfoldable pub client_of : Host → Option TenantConfig → Option Client
client_of host none = none
client_of host (some t) = elim (resolve_optional_secret_bytes host t.ldap.bind_password_ref) [
  | none ↦ none
  | some bind_password ↦
      some (record { config = t.ldap; bind_password = bind_password; timeouts = t.timeouts })
]

unfoldable pub tenant_client :
    Platform → (Text → Option Config) → Host → Text → LdapTestFlags → Option Client
tenant_client platform decode host path flags =
    if is_nil flags.tenant_id then none else elim (load_file platform decode host path) [
      | none ↦ none
      | some cfg ↦ client_of host (find_tenant cfg.tenants flags.tenant_id)
    ]

-- `%t`
abbrev printed : Bool → Text
printed true = lit "true"
printed false = lit "false"

-- `printLDAPTestResult`
unfoldable pub test_lines : TestConnectionResult → List Text
test_lines result =
    lit "ldap test ok"
    ∷ (lit "tls_verified=" ++ printed result.tls_verified)
    ∷ (lit "service_bound=" ++ printed result.service_bound)
    ∷ ((if result.user_resolved then lit "user_resolved=true" ∷ [] else [])
        ++ (if result.password_ok then lit "password_bind=true" ∷ [] else []))

-- Behind the test: an error prints nothing.
unfoldable pub test_output : TestReply × Session → Option (List Text) × Session
test_output (reply, s) = elim reply.error [
  | none ↦ (some (test_lines reply.result), s)
  | some failure ↦ (none, s)
]

module _ (lib : Library) (net : Network) where
  -- Behind the client.
  unfoldable pub run_test :
      Option TestConnectionRequest → Client → Session → Option (List Text) × Session
  run_test none c s = (none, s)
  run_test (some request) c s = test_output (test_connection lib net c request s)

  -- The lines that are printed, or none for an error. `input` is the standard input.
  unfoldable pub ldap_test :
      Platform
      → (Text → Option Config)
      → Host
      → Text
      → LdapTestFlags
      → Text
      → Session
      → Option (List Text) × Session
  ldap_test platform decode host path flags input s =
      elim (tenant_client platform decode host path flags) [
        | none ↦ (none, s)
        | some c ↦ run_test (test_request flags input) c s
      ]
