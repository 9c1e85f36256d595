-- ===== src/Relay.antt =====
-- internal/adapters/relay/client.go: the connector as a client of a relay, which sends it the
-- requests over a connection that the connector opens.
pub mod Messages
pub mod Address
pub mod State
pub mod Verification
pub mod Service
pub mod Waiting
pub mod Login
pub mod Binding
