-- ===== src/Newsim.antt =====
-- The package newsim: servers of the event simulator that reconcile transactions with the riblt
-- package, or by announcements.
pub mod Metric
pub mod Transaction
pub mod Message
pub mod Shard
pub mod Coding
pub mod Pull
pub mod Server
mod Tests
