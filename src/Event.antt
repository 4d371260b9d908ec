-- ===== src/Event.antt =====
-- internal/event: the event model and the bus.
pub mod Defs
pub mod Delivery
mod Tests
