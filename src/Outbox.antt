-- ===== src/Outbox.antt =====
-- What becomes of the targets of a publication: the decisions of src/publication_execution.rs, with
-- the states and outcomes of src/publication_attempt.rs.
pub mod Types
pub mod Decisions
pub mod Backoff
pub mod Progress
pub mod Disposition
mod Tests
pub mod Store
pub mod Reads
pub mod Statements
pub mod Record
pub mod Updates
pub mod Written
pub mod Repeat
pub mod Repeated
pub mod Recorded
pub mod Twice
mod RecordTests
pub mod Claim
pub mod Claimed
