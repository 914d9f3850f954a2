-- ===== src/Jobs.antt =====
-- Durable reconciliation jobs: src/reconciliation_job.rs, with the schema of src/state_catalog.rs.
pub mod Types
pub mod Schema
pub mod Store
pub mod Decode
pub mod Statements
pub mod Operations
pub mod Repository
pub mod Valid
pub mod Tables
pub mod Rows
pub mod Target
pub mod Swap
pub mod Renewal
pub mod Failure
pub mod History
pub mod Choice
pub mod Claim
pub mod Leases
pub mod Active
pub mod Backoff
pub mod Order
pub mod Drain
pub mod Supersession
pub mod Schedule
pub mod Again
pub mod Atomic
pub mod Fence
pub mod Complete
pub mod Steps
pub mod Runs
pub mod Samples
mod Tests
mod RunTests
mod HostTests
