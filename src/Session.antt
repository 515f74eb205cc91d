-- ===== src/Session.antt =====
-- The panel's login sessions and the brake on login failures, src/session.c.
pub mod State
pub mod Store
pub mod Login
pub mod Validity
pub mod Making
pub mod Stamps
pub mod Kept
pub mod Restart
pub mod Brake
mod Tests
