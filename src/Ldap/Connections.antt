-- ===== src/Ldap/Connections.antt =====
-- Connections of internal/adapters/ldap/client.go: how they are opened, bound, kept and closed.
use authrim_wordwarden.Prelude.{
  ℕ, suc, ◌&&◌, ◌||◌, not, Bool, true, false, List, [], ◌∷◌, ◌++◌, Option, none, some, Text, lit,
  text_eq, ◌==◌, is_nil, if◌then◌else◌, length, ltb, ℤ, pos, negsuc, lt_int,
}
use authrim_wordwarden.GoTime.{Duration}
use authrim_wordwarden.GoText.Encoding.{trim_prefix}
use authrim_wordwarden.Directory.{directory_tls, directory_unavailable, invalid_credentials, other}
use authrim_wordwarden.Config.{LdapConfig}
use authrim_wordwarden.Ldap.{Library, Client}
use authrim_wordwarden.Ldap.Network.{
  Conn, Failure, known, TlsConfig, opened, unreachable, secured, timeout_set, bound, refused,
  closed, Network, Session, done, failed, Action, give, fail, ◌>>=◌, ◌>>◌, note,
}
use authrim_wordwarden.Ldap.Errors.{normalize_ldap_error}
use authrim_wordwarden.Ldap.Timeouts.{timeout_within_context}

unfoldable pub service_search_available : Client → Bool
service_search_available c =
    not (is_nil c.config.bind_dn)
    && not (is_nil c.bind_password)
    && not (is_nil c.config.base_dn)
    && not (is_nil c.config.user_filter)

-- `requireServiceSearch`; its error is none of the sentinels.
unfoldable pub require_service_search : Client → Action (Unit {0})
require_service_search c = if service_search_available c then give tt else fail (known other)

unfoldable pub endpoint_urls : LdapConfig → List Text
endpoint_urls cfg = if is_nil cfg.url then cfg.urls else cfg.url ∷ cfg.urls

-- Is there a pool? Its capacity is `max_idle`.
unfoldable pub has_pool : Client → Bool
has_pool c = lt_int (pos 0) c.config.pool.max_idle

abbrev pub capacity : ℤ → ℕ
capacity (pos n) = n
capacity (negsuc n) = 0

unfoldable pub take_first : List Conn → Session → Option Conn × Session
take_first [] s = (none, s)
take_first (conn ∷ idle) s = (some conn, record s { idle = idle })

-- `get`
unfoldable pub take_idle : Session → Option Conn × Session
unfolding take_first
take_idle s = take_first s.idle s

-- `put`
unfoldable pub put_idle : Client → Conn → Session → Bool × Session
put_idle c conn s =
    if ltb (length s.idle) (capacity c.config.pool.max_idle)
    then (true, record s { idle = s.idle ++ conn ∷ [] })
    else (false, s)

unfoldable pub close : Conn → Session → Session
close conn s = note (closed conn) s

unfoldable pub release_conn : Client → Conn → Bool → Session → Session
release_conn c conn reusable s =
    let r = put_idle c conn s in
    if reusable && has_pool c then (if r.0 then r.1 else close conn s) else close conn s

-- The errors of a part go through `normalizeLDAPError`.
unfoldable pub normalizing {ℓ} : {A : Type ℓ} → Client → Action A → Action A
normalizing c part s =
    let r = part s in
    elim r.0 [ done a ↦ (done a, r.1) | failed e ↦ (failed (normalize_ldap_error c.config e), r.1) ]

module _ (lib : Library) (net : Network) (c : Client) where
  unfoldable pub within : ℤ → Duration → Action Duration
  within value fallback s = (timeout_within_context (net.context s.log) value fallback, s)

  unfoldable pub set_operation_timeout : Conn → ℤ → Duration → Action Duration
  unfolding within
  set_operation_timeout conn value fallback = do
    timeout ← within value fallback
    λ s. (done timeout, note (timeout_set conn timeout) s)

  -- `conn.Bind`
  unfoldable pub raw_bind : Conn → Text → Text → Action (Unit {0})
  raw_bind conn name password s = elim (net.bind s.log conn name password) [
    | none ↦ (done tt, note (bound conn name password) s)
    | some e ↦ (failed e, note (refused conn name password) s)
  ]

  unfoldable pub bind_service : Conn → Action (Unit {0})
  bind_service conn = do
    set_operation_timeout conn c.timeouts.ldap_bind_ms (pos 1500000000)
    normalizing c (raw_bind conn c.config.bind_dn c.bind_password)

  unfoldable pub bind_user : Conn → Text → Text → Action (Unit {0})
  bind_user conn name password = if is_nil password then fail (known invalid_credentials) else do
    set_operation_timeout conn c.timeouts.ldap_bind_ms (pos 1500000000)
    normalizing c (raw_bind conn name password)

  unfoldable pub restore_service_bind_for_reuse : Conn → Action (Unit {0})
  restore_service_bind_for_reuse conn =
      if not (has_pool c) || not (service_search_available c)
      then fail (known other)
      else bind_service conn

  unfoldable pub validate_pooled_conn : Conn → Action (Unit {0})
  validate_pooled_conn conn =
      if service_search_available c then bind_service conn else fail (known other)

  unfoldable pub server_name : Text → Text
  server_name endpoint =
      if not (is_nil c.config.tls.server_name)
      then c.config.tls.server_name
      else elim (lib.urls.parse endpoint) [ none ↦ [] | some url ↦ url.hostname ]

  -- The text of the CA file, where one is configured.
  unfoldable pub root_cas : Action (Option Text)
  root_cas s =
      let ref = c.config.tls.ca_file_ref in
      let path = trim_prefix ref (lit "file:") in
      if is_nil ref
      then (done none, s)
      else if path == ref || is_nil path
      then (failed (known other), s)
      else elim (net.read_file s.log path) [
        | none ↦ (failed (known directory_tls), s)
        | some pem ↦
            if net.has_certificates pem
            then (done (some pem), s)
            else (failed (known directory_tls), s)
      ]

  unfoldable pub tls_config : Text → Bool → Action TlsConfig
  tls_config endpoint allow_insecure = do
    cas ← root_cas
    give (record {
      server_name = server_name endpoint;
      insecure_skip_verify = allow_insecure;
      root_cas = cas;
    })

  -- `ldap.DialURL`
  unfoldable pub raw_dial : Text → Duration → Option TlsConfig → Action Conn
  raw_dial endpoint timeout tls s = elim (net.dial s.log endpoint timeout tls) [
    | some e ↦ (failed e, note (unreachable endpoint) s)
    | none ↦ (done s.next, note (opened s.next endpoint tls) (record s { next = suc s.next }))
  ]

  -- `conn.StartTLS`, with what its failure entails.
  unfoldable pub start_tls : Conn → TlsConfig → Action Conn
  start_tls conn tls s = elim (net.start_tls s.log conn tls) [
    | some e ↦ (failed (normalize_ldap_error c.config e), close conn s)
    | none ↦ (done conn, note (secured conn tls) s)
  ]

  unfoldable pub dial_endpoint : Text → Bool → Action Conn
  dial_endpoint endpoint allow_insecure = do
    timeout ← within c.timeouts.ldap_connect_ms (pos 500000000)
    tls ← tls_config endpoint allow_insecure
    if c.config.tls.start_tls
        then (do conn ← raw_dial endpoint timeout none; start_tls conn tls)
        else raw_dial endpoint timeout (some tls)

  abbrev pub is_tls_failure : Failure → Bool
  is_tls_failure (known directory_tls) = true
  is_tls_failure _ = false

  -- The loop over the endpoints; `tls_failed` says whether `tlsErr` is set.
  unfoldable pub dial_first : Bool → Bool → List Text → Action Conn
  dial_first allow_insecure tls_failed [] s =
      (failed (known (if tls_failed then directory_tls else directory_unavailable)), s)
  dial_first allow_insecure tls_failed (endpoint ∷ endpoints) s =
      let r = dial_endpoint endpoint allow_insecure s in
      elim r.0 [
        | done conn ↦ (done conn, r.1)
        | failed e ↦ dial_first allow_insecure (tls_failed || is_tls_failure e) endpoints r.1
      ]

  unfoldable pub dial : Bool → Action Conn
  dial allow_insecure = dial_first allow_insecure false (endpoint_urls c.config)

  -- Behind `get`.
  unfoldable pub use_idle : Option Conn → Action Conn
  use_idle none s = dial false s
  use_idle (some conn) s =
      let v = validate_pooled_conn conn s in
      elim v.0 [ done ok ↦ (done conn, v.1) | failed e ↦ dial false (close conn v.1) ]

  unfoldable pub acquire_conn : Bool → Action Conn
  acquire_conn allow_insecure s =
      let r = take_idle s in
      if allow_insecure || not (has_pool c) then dial allow_insecure s else use_idle r.0 r.1
