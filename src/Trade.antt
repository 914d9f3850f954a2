-- ===== src/Trade.antt =====
-- src/state_trade.rs and src/source_ingest.rs: the tables of evidence and their transactions.
pub mod Types
pub mod Persist
pub mod Stored
pub mod Kept
pub mod Found
pub mod Again
pub mod Checkpoints
pub mod Grown
pub mod Ingest
pub mod Cursors
pub mod Written
pub mod Fenced
pub mod Trades
pub mod Generations
pub mod Settled
pub mod Outcome
pub mod Committed
pub mod Samples
mod Tests
