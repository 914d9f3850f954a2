-- ===== src/Outbox/Types.antt =====
-- The records of src/publication_execution.rs and the states of src/publication_attempt.rs. A digest
-- or an id is a number, a relay's name its bytes.
use rhi.Base.{ℕ, List, Option, Bool}

pub data TargetState : Type 0 where
  pending submitted accepted rejected rate_limited auth_required failed unknown : TargetState

pub data AttemptOutcome : Type 0 where
  submitted accepted rejected rate_limited auth_required failed unknown : AttemptOutcome

pub data OutboxState : Type 0 where
  pending leased complete blocked : OutboxState

-- `OperationError`: what fails inside a transaction.
pub data OutboxError : Type 0 where
  invalid_input not_ready lease_lost invariant storage : OutboxError

-- `RhiPublicationAttemptOutcome::target_state`.
unfoldable pub target_state : AttemptOutcome → TargetState
target_state submitted = submitted
target_state accepted = accepted
target_state rejected = rejected
target_state rate_limited = rate_limited
target_state auth_required = auth_required
target_state failed = failed
target_state unknown = unknown

pub record OutboxRecord : Type 0 where
  pub id : ℕ
  pub event_sha256 : ℕ
  pub authority_sha256 : ℕ
  pub target_set_sha256 : ℕ
  pub target_count : ℕ  -- u8
  pub required_target_count : ℕ  -- u8
  pub max_attempts : ℕ  -- u16
  pub initial_backoff_ms : ℕ  -- u64
  pub maximum_backoff_ms : ℕ  -- u64
  pub attempt_deadline_ms : ℕ  -- u64
  pub state : OutboxState
  pub revision : ℕ
  pub next_attempt : Option ℕ
  pub lease_owner : Option ℕ
  pub lease_expires : Option ℕ
  pub created_at : ℕ
  pub updated_at : ℕ

pub record TargetRecord : Type 0 where
  pub ordinal : ℕ  -- u8
  pub relay_id : List ℕ
  pub required : Bool
  pub state : TargetState
  pub revision : ℕ
  pub attempt_count : ℕ  -- u16
  pub next_attempt : Option ℕ
  pub last_attempt_id : Option ℕ
  pub updated_at : ℕ

pub record AuthorityBinding : Type 0 where
  pub authority_sha256 : ℕ
  pub target_set_sha256 : ℕ
  pub target_count : ℕ
  pub required_target_count : ℕ
  pub max_attempts : ℕ
  pub initial_backoff_ms : ℕ
  pub maximum_backoff_ms : ℕ
  pub attempt_deadline_ms : ℕ

-- `RecordInput`, with the lease's outbox, owner and expiry as fields of its own.
pub record RecordInput : Type 0 where
  pub outbox : OutboxRecord
  pub owner : ℕ
  pub expires_at : ℕ
  pub target_ordinal : ℕ
  pub target_revision : ℕ
  pub attempt_number : ℕ
  pub attempt_id : ℕ
  pub started_at : ℕ
  pub finished_at : ℕ
  pub outcome : AttemptOutcome
  pub retry_delay : ℕ

pub record OutboxDisposition : Type 0 where
  pub state : OutboxState
  pub next_attempt : Option ℕ

pub record AttemptRecord : Type 0 where
  pub attempt_id : ℕ
  pub outbox_id : ℕ
  pub target_ordinal : ℕ
  pub attempt_number : ℕ
  pub event_sha256 : ℕ
  pub lease_owner : ℕ
  pub started_at : ℕ
  pub finished_at : ℕ
  pub outcome : AttemptOutcome

pub record AttemptCommit : Type 0 where
  pub outbox_id : ℕ
  pub attempt_id : ℕ
  pub target_ordinal : ℕ
  pub attempt_number : ℕ
  pub outcome : AttemptOutcome
  pub target_state : TargetState
  pub outbox_state : OutboxState

-- `RhiPublicationLease`.
pub record OutboxLease : Type 0 where
  pub outbox : OutboxRecord
  pub owner : ℕ
  pub expires_at : ℕ
