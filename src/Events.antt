-- ===== src/Events.antt =====
-- The machine's event stream, src/events.c.
pub mod Slots
pub mod Ring
pub mod Streams
pub mod Delivery
pub mod Accounts
pub mod Admission
mod Tests
