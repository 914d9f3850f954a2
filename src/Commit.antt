-- ===== src/Commit.antt =====
-- `commit` of src/reconciliation_commit.rs: the results of an attempt in one transaction.
pub mod Types
pub mod Rows
pub mod Existing
pub mod Operation
pub mod Same
pub mod Reached
pub mod Parts
pub mod Stored
pub mod Checked
pub mod New
pub mod Again
mod Tests
