-- ===== src/Lt.antt =====
-- The package lt: codes over a window of recent transactions.
pub mod Encoder
pub mod Links
pub mod Decoder
pub mod Tests
