-- ===== src/Auth.antt =====
-- internal/auth: the deception at the login.
pub mod Defs
pub mod Grants
mod Tests
