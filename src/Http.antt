-- ===== src/Http.antt =====
-- internal/ports/httpapi/server.go: the HTTP handler of the connector.
pub mod Metrics
pub mod Counters
pub mod Messages
pub mod State
pub mod Operations
pub mod Handler
pub mod Completion
pub mod Admission
pub mod Keeps
pub mod Concurrency
pub mod Bounded
pub mod Success
pub mod Retention
pub mod Replays
