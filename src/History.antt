-- ===== src/History.antt =====
-- src/history.rs: bounded retrieval of one-minute candles.
pub mod Request
pub mod Finish
pub mod Accepted
pub mod Unique
pub mod Outcome
pub mod Pages
pub mod Spans
pub mod Venues
