-- ===== src/Detect.antt =====
-- internal/detect: the rules, the detector's state and what it publishes.
pub mod Rules
pub mod Defs
pub mod Score
pub mod Closing
pub mod Alerts
pub mod Monitor
pub mod Severity
mod Tests
