-- ===== src/Jobstream.antt =====
-- The daemon's own Grbl sender, src/jobstream.c.
pub mod State
pub mod Answers
pub mod Sending
pub mod Ticks
pub mod Lines
pub mod Pieces
pub mod Reading
pub mod Window
pub mod Carried
pub mod Room
pub mod Honest
pub mod Witnessing
pub mod Ending
mod Tests
