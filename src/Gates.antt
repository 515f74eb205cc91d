-- ===== src/Gates.antt =====
-- The gate settings, src/gates.c.
pub mod Table
