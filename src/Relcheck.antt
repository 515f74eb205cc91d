-- ===== src/Relcheck.antt =====
-- The order of versions in the release check, src/relcheck.c.
pub mod Versions
pub mod Ordered
mod Tests
