-- ===== src/Tokens.antt =====
-- The scoped tokens, src/tokens.c.
pub mod Caps
pub mod Checks
pub mod Numbers
pub mod File
pub mod Lines
pub mod Store
mod Rollback
pub mod Reload
pub mod Kept
pub mod Making
pub mod Runs
pub mod Rights
pub mod Granting
pub mod Revoking
pub mod Limits
mod Tests
