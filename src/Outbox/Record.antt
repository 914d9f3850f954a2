-- ===== src/Outbox/Record.antt =====
-- `record_outcome` of src/publication_execution.rs, with the lease it checks and the repetition it
-- recognises.
use rhi.Outbox.Statements.{
  same_attempt, update_outbox_after_attempt, validate_lease, attempt_record, committed,
  insert_attempt, lease_of_input, optional_i64, recorded_target, target_numbered, i64_time,
  is_submitted_target, outbox_state_tag, outcome_target, write_outcome, one_changed,
}
use rhi.Outbox.Reads.{read_attempt, read_outbox, read_targets}
use rhi.Outbox.Store.{Tables, TxResult, update_targets}
use rhi.Outbox.Decisions.{
  same_outbox_identity, target_outcome_schedule, validate_targets, disposition,
}
use rhi.Base.{
  none, some, true, ok, List, Option, ℕ, ◌&&◌, ◌+◌, ◌==◌, ◌=?◌, ◌>>=◌, ◌>>◌, require, ok_or, refuse,
  checked, not, ◌||◌, is_some,
}
use rhi.Outbox.Types.{
  lease_lost, invariant, TargetState, TargetRecord, AttemptRecord, AttemptCommit, RecordInput,
}

-- The target of the attempt, under a valid lease.
unfoldable pub submitted_target : RecordInput → Tables → TxResult TargetRecord
submitted_target input db = do
  validate_lease (lease_of_input input) input.finished_at true db
  targets ← read_targets input.outbox.id db
  target ← ok_or (target_numbered input.target_ordinal targets) invariant
  refuse
      (not (is_submitted_target target)
        || not (target.revision == input.target_revision)
        || not (target.attempt_count == input.attempt_number)
        || not (target.last_attempt_id =? some input.attempt_id)
        || not (target.updated_at == input.started_at))
      lease_lost
  ok target

-- The attempt and its outcome at the target.
unfoldable pub write_attempt : RecordInput → Tables → TxResult ((TargetState × Option ℕ) × Tables)
write_attempt input db = do
  with_attempt ← insert_attempt input db
  schedule ← target_outcome_schedule input
  next ← optional_i64 schedule.1
  at ← i64_time input.finished_at
  revision ← i64_time input.target_revision
  changed ←
      update_targets input.outbox.id (outcome_target input) (write_outcome schedule.0 next at)
        with_attempt
  with_target ← one_changed changed
  ok (schedule, with_target)

module _ (sha256 : List ℕ → ℕ) where
  unfoldable pub reconcile_recorded : RecordInput → AttemptRecord → Tables → TxResult AttemptCommit
  reconcile_recorded input existing db = do
    require (same_attempt existing (attempt_record input)) invariant
    found ← read_outbox input.outbox.id db
    outbox ← ok_or found invariant
    next_revision ← ok_or (checked (input.outbox.revision + 1)) invariant
    refuse
        (not (same_outbox_identity outbox input.outbox)
          || not (outbox.revision == next_revision)
          || not (outbox.updated_at == input.finished_at)
          || is_some outbox.lease_owner
          || is_some outbox.lease_expires)
        invariant
    targets ← read_targets outbox.id db
    validate_targets sha256 outbox targets
    expected ← target_outcome_schedule input
    expected_revision ← ok_or (checked (input.target_revision + 1)) invariant
    target ← recorded_target input expected (target_numbered input.target_ordinal targets)
    decided ← disposition sha256 outbox targets
    require
        (outbox_state_tag outbox.state == outbox_state_tag decided.state
          && outbox.next_attempt =? decided.next_attempt)
        invariant
    ok (record (committed input target.state outbox.state) { outbox_id = outbox.id })

  -- The publication after its attempt.
  unfoldable pub close_attempt :
      RecordInput → TargetState × Option ℕ → Tables → TxResult (AttemptCommit × Tables)
  close_attempt input schedule db = do
    after ← read_targets input.outbox.id db
    decided ← disposition sha256 input.outbox after
    db' ← update_outbox_after_attempt input decided db
    ok (committed input schedule.0 decided.state, db')

  unfoldable pub record_new : RecordInput → Tables → TxResult (AttemptCommit × Tables)
  record_new input db = do
    target ← submitted_target input db
    written ← write_attempt input db
    close_attempt input written.0 written.1

  abbrev pub record_unless :
      Option AttemptRecord → RecordInput → Tables → TxResult (AttemptCommit × Tables)
  record_unless none input db = record_new input db
  record_unless (some existing) input db = do
    commit ← reconcile_recorded input existing db
    ok (commit, db)

  unfoldable pub record_outcome : RecordInput → Tables → TxResult (AttemptCommit × Tables)
  record_outcome input db = do
    existing ← read_attempt input.attempt_id db
    record_unless existing input db
