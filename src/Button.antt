-- ===== src/Button.antt =====
-- The machine's button as an edge, src/button.c.
pub mod Wait
pub mod Edge
mod Tests
