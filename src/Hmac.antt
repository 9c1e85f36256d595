-- ===== src/Hmac.antt =====
-- internal/adapters/hmac/verifier.go: the authentication of a request by a signature.
pub mod Request
pub mod Headers
pub mod Canonical
pub mod Verifier
pub mod Soundness
pub mod Names
