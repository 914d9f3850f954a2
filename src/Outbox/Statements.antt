-- ===== src/Outbox/Statements.antt =====
-- The statements, the lease and the comparisons of `record_outcome` in src/publication_execution.rs.
use rhi.Outbox.Reads.{read_outbox}
use rhi.Outbox.Store.{Tables, TxResult, insert_attempt_row, update_outboxes}
use rhi.Outbox.Decisions.{same_outbox_identity}
use rhi.Base.{
  none, some, ok, err, Bool, List, Option, ℕ, find, ◌&&◌, ◌+◌, ◌==◌, if◌then◌else◌, ◌=?◌, ◌>>=◌,
  is_some_and, leb, ltb, max_i64, refuse, not, ◌||◌,
}
use rhi.Outbox.Types.{
  pending, submitted, accepted, rejected, rate_limited, auth_required, failed, unknown, leased,
  complete, blocked, invalid_input, lease_lost, invariant, storage, TargetState, AttemptOutcome,
  OutboxState, OutboxRecord, TargetRecord, AttemptRecord, AttemptCommit, RecordInput, OutboxLease,
  OutboxDisposition,
}

-- The variants of the three enumerations, numbered: two values are equal as their numbers are.
abbrev pub target_state_tag : TargetState → ℕ
target_state_tag pending = 0
target_state_tag submitted = 1
target_state_tag accepted = 2
target_state_tag rejected = 3
target_state_tag rate_limited = 4
target_state_tag auth_required = 5
target_state_tag failed = 6
target_state_tag unknown = 7

abbrev outcome_tag : AttemptOutcome → ℕ
outcome_tag submitted = 1
outcome_tag accepted = 2
outcome_tag rejected = 3
outcome_tag rate_limited = 4
outcome_tag auth_required = 5
outcome_tag failed = 6
outcome_tag unknown = 7

abbrev pub outbox_state_tag : OutboxState → ℕ
outbox_state_tag pending = 0
outbox_state_tag leased = 1
outbox_state_tag complete = 2
outbox_state_tag blocked = 3

abbrev pub is_leased_outbox : OutboxRecord → Bool
is_leased_outbox r = outbox_state_tag r.state == 1

abbrev pub is_submitted_target : TargetRecord → Bool
is_submitted_target t = target_state_tag t.state == 1

-- The derived equality of `OutboxRecord`.
unfoldable pub same_outbox : OutboxRecord → OutboxRecord → Bool
unfolding same_outbox_identity
same_outbox a b =
    same_outbox_identity a b
    && outbox_state_tag a.state == outbox_state_tag b.state
    && a.revision == b.revision
    && a.next_attempt =? b.next_attempt
    && a.lease_owner =? b.lease_owner
    && a.lease_expires =? b.lease_expires
    && a.updated_at == b.updated_at

abbrev pub i64_time : ℕ → TxResult ℕ
i64_time t = if leb t max_i64 then ok t else err invalid_input

abbrev pub optional_i64 : Option ℕ → TxResult (Option ℕ)
optional_i64 none = ok none
optional_i64 (some t) = do value ← i64_time t; ok (some value)

abbrev pub one_changed : ℕ × Tables → TxResult Tables
one_changed (rows, db) = if rows == 1 then ok db else err lease_lost

abbrev pub current_outbox : OutboxLease → Option OutboxRecord → TxResult OutboxRecord
current_outbox lease none = err lease_lost
current_outbox lease (some current) =
    if same_outbox current lease.outbox then ok current else err lease_lost

unfoldable pub validate_lease : OutboxLease → ℕ → Bool → Tables → TxResult (Unit {0})
validate_lease lease now require_unexpired db = do
  found ← read_outbox lease.outbox.id db
  current ← current_outbox lease found
  refuse
      (not (is_leased_outbox current)
        || not (current.lease_owner =? some lease.owner)
        || not (current.lease_expires =? some lease.expires_at)
        || (require_unexpired && leb lease.expires_at now))
      lease_lost

abbrev pub lease_of_input : RecordInput → OutboxLease
lease_of_input input = record {
  outbox = input.outbox;
  owner = input.owner;
  expires_at = input.expires_at;
}

-- `AttemptRecord::from_input`.
abbrev pub attempt_record : RecordInput → AttemptRecord
attempt_record input = record {
  attempt_id = input.attempt_id;
  outbox_id = input.outbox.id;
  target_ordinal = input.target_ordinal;
  attempt_number = input.attempt_number;
  event_sha256 = input.outbox.event_sha256;
  lease_owner = input.owner;
  started_at = input.started_at;
  finished_at = input.finished_at;
  outcome = input.outcome;
}

unfoldable pub same_attempt : AttemptRecord → AttemptRecord → Bool
same_attempt a b =
    a.attempt_id == b.attempt_id
    && a.outbox_id == b.outbox_id
    && a.target_ordinal == b.target_ordinal
    && a.attempt_number == b.attempt_number
    && a.event_sha256 == b.event_sha256
    && a.lease_owner == b.lease_owner
    && a.started_at == b.started_at
    && a.finished_at == b.finished_at
    && outcome_tag a.outcome == outcome_tag b.outcome

unfoldable pub insert_attempt : RecordInput → Tables → TxResult Tables
insert_attempt input db = do
  started ← i64_time input.started_at
  finished ← i64_time input.finished_at
  (rows, db') ← insert_attempt_row (attempt_record input) db
  if rows == 1 then ok db' else err storage

-- `UPDATE_TARGET_OUTCOME_SQL`.
abbrev pub outcome_target : RecordInput → TargetRecord → Bool
outcome_target input t =
    t.ordinal == input.target_ordinal
    && t.revision == input.target_revision
    && is_submitted_target t
    && t.attempt_count == input.attempt_number
    && t.last_attempt_id =? some input.attempt_id

abbrev pub write_outcome : TargetState → Option ℕ → ℕ → TargetRecord → TargetRecord
write_outcome state next at t = record t {
  state = state;
  revision = t.revision + 1;
  next_attempt = next;
  updated_at = at;
}

-- `UPDATE_OUTBOX_AFTER_ATTEMPT_SQL`.
abbrev pub outbox_of_lease : RecordInput → OutboxRecord → Bool
outbox_of_lease input r =
    r.id == input.outbox.id
    && r.revision == input.outbox.revision
    && is_leased_outbox r
    && r.lease_owner =? some input.owner
    && r.lease_expires =? some input.expires_at
    && is_some_and (ltb input.finished_at) r.lease_expires
    && leb r.updated_at input.finished_at

abbrev pub write_disposition : OutboxDisposition → ℕ → OutboxRecord → OutboxRecord
write_disposition decided at r = record r {
  state = decided.state;
  revision = r.revision + 1;
  next_attempt = decided.next_attempt;
  lease_owner = none;
  lease_expires = none;
  updated_at = at;
}

unfoldable pub update_outbox_after_attempt :
    RecordInput → OutboxDisposition → Tables → TxResult Tables
update_outbox_after_attempt input decided db = do
  next ← optional_i64 decided.next_attempt
  at ← i64_time input.finished_at
  revision ← i64_time input.outbox.revision
  expires ← i64_time input.expires_at
  changed ← update_outboxes (outbox_of_lease input) (write_disposition decided at) db
  one_changed changed

abbrev pub committed : RecordInput → TargetState → OutboxState → AttemptCommit
committed input state outbox_state = record {
  outbox_id = input.outbox.id;
  attempt_id = input.attempt_id;
  target_ordinal = input.target_ordinal;
  attempt_number = input.attempt_number;
  outcome = input.outcome;
  target_state = state;
  outbox_state = outbox_state;
}

abbrev pub target_numbered : ℕ → List TargetRecord → Option TargetRecord
target_numbered ordinal targets = find (λ t. t.ordinal == ordinal) targets

-- The target as the attempt has left it.
abbrev pub is_recorded : RecordInput → TargetState × Option ℕ → TargetRecord → Bool
is_recorded input (state, next) t =
    t.revision == input.target_revision + 1
    && t.attempt_count == input.attempt_number
    && t.last_attempt_id =? some input.attempt_id
    && target_state_tag t.state == target_state_tag state
    && t.next_attempt =? next
    && t.updated_at == input.finished_at

abbrev pub recorded_target :
    RecordInput → TargetState × Option ℕ → Option TargetRecord → TxResult TargetRecord
recorded_target input expected none = err invariant
recorded_target input expected (some t) =
    if is_recorded input expected t then ok t else err invariant
