-- ===== src/Replay.antt =====
-- src/reconciliation_replay.rs: the replay of one source for an attempt.
pub mod Types
pub mod Canonical
pub mod Loop
pub mod Refine
pub mod Same
pub mod Sorting
pub mod Keeping
pub mod Marks
pub mod Cases
pub mod Accepts
pub mod Plan
pub mod Finish
pub mod Commit
pub mod Ingest
pub mod Advance
pub mod Fits
pub mod Seen
mod Tests
