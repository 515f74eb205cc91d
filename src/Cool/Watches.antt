-- ===== src/Cool/Watches.antt =====
-- The watches at the head of a tick in src/cool.c.
mod Reports
mod Sensing
unfoldable pub use Reports.*
unfoldable pub use Sensing.*
