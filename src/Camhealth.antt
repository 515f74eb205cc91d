-- ===== src/Camhealth.antt =====
-- The frame health ladder of a capture queue, src/camhealth.c.
pub mod Ladder
pub mod Escalation
mod Tests
