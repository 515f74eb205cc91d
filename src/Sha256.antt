-- ===== src/Sha256.antt =====
-- SHA-256, HMAC-SHA256 and the constant-time comparison, src/sha256.c.
pub mod Compare
pub mod Compress
pub mod Stream
pub mod Hmac
pub mod Chunks
pub mod Digests
mod Tests
