-- ===== src/Riblt.antt =====
-- The package riblt: rateless invertible Bloom lookup tables.
pub mod Symbol
pub mod Mapping
pub mod Window
pub mod Sketch
pub mod Decoder
mod Tests
