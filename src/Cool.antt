-- ===== src/Cool.antt =====
-- The cooling engine, src/cool.c.
pub mod State
pub mod Fans
pub mod Limits
pub mod Session
pub mod Watches
pub mod Airflow
pub mod Coolant
pub mod Flow
pub mod Tick
pub mod Calls
pub mod Heat
pub mod Heating
pub mod Heaters
pub mod Sky
pub mod Alarms
pub mod Faults
pub mod Clear
pub mod FireOk
pub mod Window
pub mod Acks
pub mod Safing
pub mod Silence
pub mod Raised
pub mod Standdown
mod Tests
