-- ===== src/Mp4.antt =====
-- The wrapping of the H.264 stream as fragmented MP4, src/mp4mux.c.
pub mod Buffer
pub mod Boxes
pub mod Nals
pub mod Muxer
pub mod Growing
pub mod Refined
pub mod Splitting
pub mod Fragments
pub mod Readback
mod Tests
