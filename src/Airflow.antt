-- ===== src/Airflow.antt =====
-- The airflow gate of one fan, src/airflow.c.
pub mod Gate
pub mod Latch
mod Tests
