-- ===== src/Tty.antt =====
-- internal/tty: the recorder of sessions, with the reader of its files in cmd/ttyshow.
pub mod Defs
pub mod RoundTrip
pub mod Output
mod Tests
