-- ===== src/Holds.antt =====
-- The holds of the extension packages, src/holds.c.
pub mod Verdict
pub mod Standing
mod Tests
