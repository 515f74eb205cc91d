-- ===== src/Super.antt =====
-- The controller supervisor, src/super.c: which controller runs, and what is done to the machine
-- around it.
pub mod State
pub mod Sections
pub mod Stop
pub mod Probe
pub mod Pass
pub mod Main
pub mod Ready
pub mod Invariant
pub mod Lifecycle
pub mod Backoff
pub mod Api
pub mod Halting
pub mod Spawning
pub mod Probing
mod Tests
