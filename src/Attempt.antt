-- ===== src/Attempt.antt =====
-- One attempt of a claimed job: src/reconciliation_attempt.rs.
pub mod Types
pub mod Identity
pub mod Plan
pub mod Results
pub mod Bounds
pub mod Claim
pub mod Inventory
mod Tests
