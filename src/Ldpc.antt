-- ===== src/Ldpc.antt =====
-- The package ldpc: an earlier form of lt, on transactions of a fixed size.
pub mod Transaction
pub mod Encoder
mod Tests
