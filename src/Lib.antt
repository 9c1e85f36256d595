-- ===== src/Lib.antt =====
-- Authrim Wordwarden, a connector between a cloud service and a customer's LDAP directory: it
-- accepts signed requests to verify a password, asks the directory, and answers with the verdict.
--
-- The parts, and the files that model them:
-- - Http and its children: internal/ports/httpapi/server.go. The method `verifyPassword` is two
--   steps, `admit` from the arrival of a request to the call of the directory client, and
--   `complete` from the client's answer to the reply, with the deferred release of the slot.
--   `serve` is both in a row. Http.Concurrency interleaves the steps of many requests. The handler
--   keeps the slots of each connector, its storms, the replay cache, the audit events and the
--   counters; Http.State has the calls that change them (`acquire`, `release`, `stormBlocked`,
--   `recordStorm`, `resetStorm`, `emit`), Http.Messages the requests, replies and codes,
--   Http.Metrics `record` and `metricLabel`, and Http.Operations the endpoints for health, version
--   and metrics.
-- - Replay: the replay cache of the same file, which the handler asks before it takes a slot.
-- - Storm: internal/ports/httpapi/storm.go, which the handler asks before it decodes a body and
--   before it calls the directory.
-- - Hmac and its children: internal/adapters/hmac/verifier.go: Hmac.Headers (`requiredHeaders`,
--   `parseSignedHeaders`), Hmac.Canonical (`CanonicalRequest`, `SignCanonical`), Hmac.Verifier
--   (`Verify`, `lookupKey`).
-- - Directory: internal/core/directory/directory.go, the results that a directory client gives.
-- - Audit: internal/core/audit/audit.go, the events.
-- - Username: internal/core/username/username.go, the preprocessing of user names (`Preprocess`),
--   with the records of internal/ports/config/config.go that it reads; the LDAP client calls it.
-- - Config and its children: internal/ports/config/config.go. Config has the records, Config.Defaults
--   `applyDefaults`, Config.Loading `LoadFile` and `Parse`, Config.Validation `Validate` with
--   Config.Problems (how texts are collected), Config.Patterns (references and patterns),
--   Config.Routes (the URLs of heartbeat and relay), Config.Endpoints (LDAP URLs and referrals) and
--   Config.LdapRules (`validateLDAP` and what it calls). Config.SafeTenants says what a safe tenant
--   is; Config.SafeEndpoints, Config.SafeDirectories, Config.SafeLdap, Config.RelayRoutes and
--   Config.Accepted have the proofs. Config.Filled is a table of the defaults, and Config.Filling has
--   its proofs.
-- - Ldap and its children: internal/adapters/ldap/client.go, the directory client that the handler
--   calls. A call goes on from a session: the calls made on connections so far, the next new
--   connection, and the idle connections of the pool. Ldap.Network has the session and the network,
--   Ldap.Verify `VerifyPassword`, Ldap.TestConnection `TestConnection`, Ldap.Connections the pool,
--   `dial`, TLS and binds, Ldap.Search `search` with pages and referrals, Ldap.Groups `groupFacts`,
--   Ldap.Attributes the attributes, Ldap.Errors `normalizeLDAPError` and the verdicts on binds,
--   Ldap.Timeouts the timeouts. Ldap.Frame, Ldap.Parts, Ldap.Opening, Ldap.Searching and
--   Ldap.Resolving have what each part leaves as it was; Ldap.Restoring and Ldap.Backing what a
--   verification does on its connection, Ldap.Pooling, Ldap.Acquiring and Ldap.Sessions the pool.
-- - Relay and its children: internal/adapters/relay/client.go, which serves requests that come over
--   a connection to a relay. Relay.Verification has `processVerifyRequest` as two steps, `receive` and
--   `conclude`, Relay.State `NewClient`, the slots and the waits of `Run`, Relay.Messages the messages,
--   Relay.Address `parseRelayURL` and `validateRelayURLBinding`, Relay.Login `authenticate` and
--   `AuthCanonical`. Its replay cache and its storms have the code of the handler's, and are those of
--   Replay and Storm.
-- - Secrets: `ParseRef` of internal/ports/secrets/secrets.go; Secrets.Resolving:
--   internal/adapters/secrets/resolver.go and the calls of it in internal/app/command.go.
-- - Commands and its children: internal/app/command.go. Commands has `buildTenantRuntimes`,
--   `startRelayClients`, `startHeartbeatClients` and `findTenant`, Commands.Serve what `serve` does
--   before it listens, Commands.LdapTest `ldap test`, Commands.Inputs passwords and paths,
--   Commands.Diagnostics `buildDiagnosticBundle`, Commands.Doctor `buildDoctorReport`,
--   Commands.Versions `compareVersions` and `advisoryVersionMatches`, Commands.Feed `update check`.
--   Commands.Runtimes, Commands.Starting, Commands.Prepared, Commands.Redaction, Commands.Ready,
--   Commands.Parts, Commands.Older, Commands.Order and Commands.Trust have the proofs.
-- - Heartbeat and its children: internal/app/heartbeat.go, what `serve` reports in intervals.
-- - Instance: internal/app/instance.go, the identity that `serve` keeps in its state directory.
-- - GoTime, GoText and GoUrl: what the program uses of packages time, strings, sort, net/url and
--   encoding/hex. Prelude: names, tests on numbers, texts as lists of bytes, and maps.
-- - Tests: concrete inputs.
--
-- Parameters, for what is not this program's code: SHA-256 and HMAC (`Crypto`), the tables of
-- Unicode for text that is not ASCII (`Unicode`), the parser of RFC 3339 and the JSON decoder
-- (`Env`), the normalisation NFKC, and for the handler the answer of the directory client, which is
-- any value. For the LDAP client they are the network, whose answers depend on all calls before, and
-- what it uses of github.com/go-ldap/ldap and net/url.
--
-- Instants are nanoseconds since an origin before every instant that the program meets, durations
-- are int64, and the clock is read once in a step. `Time.Sub` saturates and durations and counters
-- wrap as in Go; the count of a storm's window is not bounded. Each step is atomic, so the
-- interleavings are those of whole steps; in the source the replay cache, the storms, the counters
-- and the channels of slots are synchronised one by one within a step. Every loop is recursion on a
-- list, but for that over the pages of a search, whose end is the directory's to say: it runs on the
-- `rounds` of the network, which may be any number, and has an error of its own where they are spent.
-- A call of the LDAP client runs to its end before the next one.
--
-- The file system is what a read gives, an HTTP call is a function of the request, and YAML, JSON,
-- base64 decoding, Ed25519 and `%q` are parameters too. Where the program gives an error, commands
-- and loading have `none`; validation keeps all its texts.
--
-- Not modelled: JSON encoding, latencies and identifiers of events, the reads and writes of the
-- relay's connection, the timer of the heartbeat, the parsing of flags, the loop of `serve` over its
-- signals, what `update check` prints, and the writers of the audit log, which are input and output.
mod Prelude
pub mod GoTime
pub mod Directory
pub mod Storm
pub mod Replay
pub mod GoText
pub mod GoUrl
pub mod Hmac
pub mod Audit
pub mod Http
pub mod Username
pub mod Secrets
pub mod Config
pub mod Relay
pub mod Heartbeat
pub mod Instance
pub mod Commands
pub mod Ldap
mod Tests
