-- ===== src/Tests.antt =====
-- Concrete inputs, and the theorems at them.
mod Components
mod Service
mod Names
mod Ldap
mod Relay
mod Config
mod Samples
mod Commands
mod Updates
