-- ===== src/Crash.antt =====
-- The head accelerometer's crash watch, the tiers of src/accel.c.
pub mod Watch
