-- ===== src/Identity.antt =====
-- internal/shell/identity.go: the identity of a session.
pub mod Defs
pub mod Names
mod Tests
