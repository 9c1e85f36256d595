-- ===== src/Commands/Doctor.antt =====
-- The report of the command `doctor` of internal/app/command.go.
use authrim_wordwarden.Prelude.{
  Bool, true, false, not, ◌||◌, List, [], ◌∷◌, ◌++◌, Option, none, some, Text, lit, is_nil,
  if◌then◌else◌, length,
}
use authrim_wordwarden.GoText.Encoding.{has_prefix}
use authrim_wordwarden.Config.{Config, TenantConfig}
use authrim_wordwarden.Config.Problems.{decimal}
use authrim_wordwarden.Config.Patterns.{Platform}
use authrim_wordwarden.Config.Loading.{load_file}
use authrim_wordwarden.Secrets.Resolving.{Host}

pub record DoctorCheck : Type 0 where
  pub name : Text
  pub status : Text
  pub detail : Text

pub record DoctorReport : Type 0 where
  pub checks : List DoctorCheck
  pub has_failures : Bool

unfoldable pub add_doctor_check : Text → Bool → Text → DoctorReport → DoctorReport
add_doctor_check name ok detail report = record {
  checks =
      report.checks
      ++ record { name = name; status = if ok then lit "ok" else lit "fail"; detail = detail } ∷ [];
  has_failures = if ok then report.has_failures else true;
}

unfoldable pub add_doctor_warning : Text → Bool → Text → DoctorReport → DoctorReport
add_doctor_warning name warn detail report = record report {
  checks =
      report.checks
      ++ record { name = name; status = if warn then lit "warn" else lit "ok"; detail = detail }
        ∷ [];
}

unfoldable pub is_secret_ref : Text → Bool
is_secret_ref value = has_prefix value (lit "env:") || has_prefix value (lit "file:")

unfoldable pub server_checks : Config → DoctorReport → DoctorReport
server_checks cfg report =
    add_doctor_warning (lit "server.tls") (not cfg.server.tls.enabled)
      (lit "TLS disabled; use only behind a trusted local proxy or tunnel")
      (add_doctor_warning (lit "server.state_dir") (is_nil cfg.server.state_dir)
        cfg.server.state_dir
        (add_doctor_check (lit "server.listen") (not (is_nil cfg.server.listen)) cfg.server.listen (
          add_doctor_check (lit "config.tenants") (not (is_nil cfg.tenants))
            (decimal (length cfg.tenants) ++ lit " tenant(s)") report)))

-- The checks of a tenant that always run.
unfoldable pub identity_checks : Text → TenantConfig → DoctorReport → DoctorReport
identity_checks prefix t report =
    let key = t.authrim.hmac_keys.active in
    add_doctor_check (prefix ++ lit "ldap.endpoint")
      (not (is_nil t.ldap.urls) || not (is_nil t.ldap.url)) (lit "LDAP endpoint configured")
      (add_doctor_warning (prefix ++ lit "ldap.tls_verify") (not t.ldap.tls.verify)
        (lit "LDAP TLS verification disabled")
        (add_doctor_check (prefix ++ lit "audit_hash_secret_ref")
          (is_secret_ref t.authrim.audit_hash_secret_ref) (lit "secret reference configured")
          (add_doctor_check (prefix ++ lit "hmac.active_secret_ref") (is_secret_ref key.secret_ref)
            (lit "secret reference configured")
            (add_doctor_check (prefix ++ lit "hmac.active_kid") (not (is_nil key.kid)) key.kid (
              add_doctor_check (prefix ++ lit "connector_id") (not (is_nil t.connector_id))
                t.connector_id report)))))

unfoldable pub relay_checks : Text → TenantConfig → DoctorReport → DoctorReport
relay_checks prefix t report =
    if t.authrim.relay.enabled
    then add_doctor_check (prefix ++ lit "relay.url") (not (is_nil t.authrim.relay.url))
        (lit "relay enabled") report
    else report

unfoldable pub heartbeat_checks : Text → TenantConfig → DoctorReport → DoctorReport
heartbeat_checks prefix t report =
    if t.authrim.heartbeat.enabled
    then add_doctor_check (prefix ++ lit "heartbeat.key")
        (is_secret_ref t.authrim.heartbeat.key.secret_ref)
        (lit "heartbeat key reference configured") report
    else report

-- The body of the loop over the tenants.
unfoldable pub tenant_checks : TenantConfig → DoctorReport → DoctorReport
tenant_checks t report =
    let prefix = lit "tenant." ++ (t.tenant_id ++ lit ".") in
    heartbeat_checks prefix t (relay_checks prefix t (identity_checks prefix t report))

unfoldable pub tenants_checks : List TenantConfig → DoctorReport → DoctorReport
tenants_checks [] report = report
tenants_checks (t ∷ tenants) report = tenants_checks tenants (tenant_checks t report)

unfoldable pub build_doctor_report : Config → DoctorReport
build_doctor_report cfg =
    tenants_checks cfg.tenants (server_checks cfg (record { checks = []; has_failures = false }))

-- The command: the checks that it prints and whether it ends without an error.
unfoldable pub doctor : Platform → (Text → Option Config) → Host → Text → List DoctorCheck × Bool
doctor platform decode host path = elim (load_file platform decode host path) [
  | none ↦ ([], false)
  | some cfg ↦ let report = build_doctor_report cfg in (report.checks, not report.has_failures)
]
