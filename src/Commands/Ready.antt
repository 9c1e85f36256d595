-- ===== src/Commands/Ready.antt =====
-- When the report of `doctor`, of internal/app/command.go, has failures.
use authrim_wordwarden.Prelude.{
  ◌≡◌, ◌⊎◌, refl, sym, inl, inr, ◌∙◌, ◌==◌, text_beq, Bool, true, false, not, ◌||◌, List, [], ◌∷◌,
  ◌++◌, map, Option, some, Text, lit, text_eq, is_nil, contains, if◌then◌else◌, All, arith,
}
use authrim_wordwarden.GoText.Encoding.{has_prefix}
use authrim_wordwarden.Secrets.References.{parse_ref_iff}
use authrim_wordwarden.Config.{Config, TenantConfig, LdapConfig}
use authrim_wordwarden.Config.Patterns.{Platform}
use authrim_wordwarden.Config.Endpoints.{ldap_endpoint_urls}
use authrim_wordwarden.Config.SafeTenants.{IsReferenced, IsSafeTenant}
use authrim_wordwarden.Config.Accepted.{validate-IsSafeTenant, validate_filled}
use authrim_wordwarden.Config.Loading.{load_file, load_file-apply_defaults, listen_filled}
use authrim_wordwarden.Secrets.Resolving.{Host}
use authrim_wordwarden.Commands.Starting.{connector_id_filled}
use authrim_wordwarden.Commands.Doctor.{
  DoctorCheck, DoctorReport, add_doctor_check, add_doctor_warning, is_secret_ref, server_checks,
  identity_checks, relay_checks, heartbeat_checks, tenant_checks, tenants_checks,
  build_doctor_report,
}

is_secret_ref-IsReferenced : (raw : Text) → IsReferenced raw → is_secret_ref raw ≡ true
unfolding is_secret_ref has_prefix lit
is_secret_ref-IsReferenced raw (r, parsed) =
    let i = (parse_ref_iff raw r).0 parsed in
    elim i.known [ inl env ↦ rw (i.whole, env) refl | inr file ↦ rw (i.whole, file) refl ]

or_false : (b : Bool) → (b || false) ≡ b
or_false b = ground arith

or_true : (b : Bool) → (b || true) ≡ true
or_true b = ground arith

abbrev statuses : DoctorReport → List Text
statuses report = map (λ c. c.status) report.checks

failed_last :
    (checks : List DoctorCheck) (c : DoctorCheck)
    → contains (lit "fail") (map (λ d. d.status) (checks ++ c ∷ []))
      ≡ (contains (lit "fail") (map (λ d. d.status) checks) || c.status == lit "fail")
unfolding contains
failed_last [] c = ground arith
failed_last (d ∷ checks) c = ground (arith, failed_last checks c)

-- The flag says whether a check failed.
abbrev Agrees : DoctorReport → Type 0
Agrees report = report.has_failures ≡ contains (lit "fail") (statuses report)

add_doctor_check-Agrees :
    (name detail : Text) (ok : Bool) (report : DoctorReport)
    → Agrees report
    → Agrees (add_doctor_check name ok detail report)
unfolding add_doctor_check lit text_beq
add_doctor_check-Agrees name detail true report h =
    h ∙ sym (failed_last report.checks _ ∙ or_false _)
add_doctor_check-Agrees name detail false report h = sym (failed_last report.checks _ ∙ or_true _)

add_doctor_warning-Agrees :
    (name detail : Text) (warn : Bool) (report : DoctorReport)
    → Agrees report
    → Agrees (add_doctor_warning name warn detail report)
unfolding add_doctor_warning lit text_beq
add_doctor_warning-Agrees name detail true report h =
    h ∙ sym (failed_last report.checks _ ∙ or_false _)
add_doctor_warning-Agrees name detail false report h =
    h ∙ sym (failed_last report.checks _ ∙ or_false _)

endpoint_named :
    (l : LdapConfig)
    → is_nil (ldap_endpoint_urls l) ≡ false
    → (not (is_nil l.urls) || not (is_nil l.url)) ≡ true
unfolding ldap_endpoint_urls
endpoint_named l h = ground arith

-- A tenant that is safe adds no failure.
tenant_passes :
    (platform : Platform) (t : TenantConfig) (report : DoctorReport)
    → IsSafeTenant platform t
    → (tenant_checks t report).has_failures ≡ report.has_failures
unfolding tenant_checks identity_checks relay_checks heartbeat_checks add_doctor_check
    add_doctor_warning
tenant_passes platform t report safe = ground (
  arith,
  connector_id_filled t.connector_id safe.connector_named,
  safe.key_named,
  is_secret_ref-IsReferenced _ safe.key,
  is_secret_ref-IsReferenced _ safe.audit_secret,
  endpoint_named t.ldap safe.ldap.reachable,
  safe.relay,
  beat,
)
  where
    beat :
        (t.authrim.heartbeat.enabled ≡ false)
        ⊎ (is_secret_ref t.authrim.heartbeat.key.secret_ref ≡ true)
    beat = elim safe.heartbeat [ inl off ↦ inl off | inr r ↦ inr (is_secret_ref-IsReferenced _ r) ]

tenants_pass :
    (platform : Platform) (tenants : List TenantConfig) (report : DoctorReport)
    → All (IsSafeTenant platform) tenants
    → (tenants_checks tenants report).has_failures ≡ report.has_failures
unfolding tenants_checks
tenants_pass platform [] report h = refl
tenants_pass platform (t ∷ tenants) report (h, hs) =
    tenants_pass platform tenants (tenant_checks t report) hs ∙ tenant_passes platform t report h

server_passes :
    (cfg : Config)
    → is_nil cfg.tenants ≡ false
    → is_nil cfg.server.listen ≡ false
    → (server_checks cfg (record { checks = []; has_failures = false })).has_failures ≡ false
unfolding server_checks add_doctor_check add_doctor_warning
server_passes cfg h k = ground arith

if-Agrees :
    (test : Bool) (a b : DoctorReport) → Agrees a → Agrees b → Agrees (if test then a else b)
if-Agrees true a b h k = h
if-Agrees false a b h k = k

server_checks-Agrees :
    (cfg : Config) (report : DoctorReport) → Agrees report → Agrees (server_checks cfg report)
unfolding server_checks
server_checks-Agrees cfg report h = add_doctor_warning-Agrees _ _ _ _ (
    add_doctor_warning-Agrees _ _ _ _
      (add_doctor_check-Agrees _ _ _ _ (add_doctor_check-Agrees _ _ _ _ h)))

identity_checks-Agrees :
    (prefix : Text) (t : TenantConfig) (report : DoctorReport)
    → Agrees report
    → Agrees (identity_checks prefix t report)
unfolding identity_checks
identity_checks-Agrees prefix t report h = add_doctor_check-Agrees _ _ _ _ (
    add_doctor_warning-Agrees _ _ _ _ (
      add_doctor_check-Agrees _ _ _ _ (
        add_doctor_check-Agrees _ _ _ _
          (add_doctor_check-Agrees _ _ _ _ (add_doctor_check-Agrees _ _ _ _ h)))))

tenant_checks-Agrees :
    (t : TenantConfig) (report : DoctorReport) → Agrees report → Agrees (tenant_checks t report)
unfolding tenant_checks relay_checks heartbeat_checks
tenant_checks-Agrees t report h =
    let identified =
      identity_checks-Agrees (lit "tenant." ++ (t.tenant_id ++ lit ".")) t report h in
    let relayed =
      if-Agrees t.authrim.relay.enabled _ _ (add_doctor_check-Agrees _ _ _ _ identified)
        identified in
    if-Agrees t.authrim.heartbeat.enabled _ _ (add_doctor_check-Agrees _ _ _ _ relayed) relayed

tenants_checks-Agrees :
    (tenants : List TenantConfig) (report : DoctorReport)
    → Agrees report
    → Agrees (tenants_checks tenants report)
unfolding tenants_checks
tenants_checks-Agrees [] report h = h
tenants_checks-Agrees (t ∷ tenants) report h =
    tenants_checks-Agrees tenants (tenant_checks t report) (tenant_checks-Agrees t report h)

build_doctor_report-Agrees : (cfg : Config) → Agrees (build_doctor_report cfg)
unfolding build_doctor_report contains
build_doctor_report-Agrees cfg =
    tenants_checks-Agrees cfg.tenants _ (server_checks-Agrees cfg _ refl)

build_passes :
    (platform : Platform) (cfg : Config)
    → All (IsSafeTenant platform) cfg.tenants
    → is_nil cfg.tenants ≡ false
    → is_nil cfg.server.listen ≡ false
    → (build_doctor_report cfg).has_failures ≡ false
unfolding build_doctor_report
build_passes platform cfg safe filled listening =
    tenants_pass platform cfg.tenants _ safe ∙ server_passes cfg filled listening

-- The report on a configuration that was loaded has no failures: neither its flag nor the status of
-- any check says so.
pub build_doctor_report_passes :
    (platform : Platform) (decode : Text → Option Config) (host : Host) (path : Text) (cfg : Config)
    → load_file platform decode host path ≡ some cfg
    → ((build_doctor_report cfg).has_failures ≡ false)
      × (contains (lit "fail") (map (λ c. c.status) (build_doctor_report cfg).checks) ≡ false)
build_doctor_report_passes platform decode host path cfg loaded =
    let (raw, settled, valid) = load_file-apply_defaults platform decode host path cfg loaded in
    let agrees : Agrees (build_doctor_report cfg) = build_doctor_report-Agrees cfg in
    let passes : (build_doctor_report cfg).has_failures ≡ false =
      build_passes platform cfg (validate-IsSafeTenant platform cfg valid).0
        (validate_filled platform cfg valid) (rw settled (listen_filled raw)) in
    (passes, sym agrees ∙ passes)
