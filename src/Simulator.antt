-- ===== src/Simulator.antt =====
-- The program simulator: servers that reconcile transactions by the code of the package lt.
pub mod Transaction
pub mod Message
pub mod Sender
pub mod Receiver
pub mod Limiter
pub mod Server
mod Tests
