-- ===== src/Jobs/Types.antt =====
-- The states, errors, policy and records of src/reconciliation_job.rs.
use rhi.Base.{
  ℕ, ◌-◌, ◌*◌, ◌^◌, min, Bool, ◌&&◌, ◌||◌, not, Option, Result, ok, err, ltb, leb, ◌==◌, between,
  if◌then◌else◌, max_u64, max_i64,
}

pub data JobState : Type 0 where
  ready leased exhausted superseded completed : JobState

pub data JobErrorKind : Type 0 where
  invalid_mode invalid_input queue_full dirty_generation_conflict : JobErrorKind
  lease_lost not_ready storage commit_outcome_unknown : JobErrorKind

-- What fails inside a transaction.
pub data OperationError : Type 0 where
  invalid_input queue_full dirty_generation_conflict lease_lost not_ready storage : OperationError

abbrev pub max_active : ℕ
max_active = 65536

abbrev pub max_attempts_limit : ℕ
max_attempts_limit = 100

abbrev pub max_lease_ms : ℕ
max_lease_ms = 300000

abbrev pub max_renewal_ms : ℕ
max_renewal_ms = 150000

abbrev pub max_initial_backoff_ms : ℕ
max_initial_backoff_ms = 60000

abbrev pub max_backoff_ms : ℕ
max_backoff_ms = 3600000

pub record JobPolicy : Type 0 where
  pub queue_capacity : ℕ  -- u32
  pub lease_duration_ms : ℕ  -- u64
  pub lease_renewal_ms : ℕ  -- u64
  pub max_attempts : ℕ  -- u16
  pub initial_backoff_ms : ℕ  -- u64
  pub maximum_backoff_ms : ℕ  -- u64

-- `RhiReconciliationJobPolicy::new`.
unfoldable pub policy_new : ℕ → ℕ → ℕ → ℕ → ℕ → ℕ → Result JobErrorKind JobPolicy
policy_new capacity duration renewal attempts initial maximum =
    if capacity == 0
      || ltb max_active capacity
      || not (between 1000 max_lease_ms duration)
      || not (between 100 max_renewal_ms renewal)
      || leb duration renewal
      || attempts == 0
      || ltb max_attempts_limit attempts
      || not (between 1 max_initial_backoff_ms initial)
      || not (between 1 max_backoff_ms maximum)
      || ltb maximum initial
    then err invalid_input
    else ok (record {
      queue_capacity = capacity;
      lease_duration_ms = duration;
      lease_renewal_ms = renewal;
      max_attempts = attempts;
      initial_backoff_ms = initial;
      maximum_backoff_ms = maximum;
    })

-- `RhiReconciliationUnixMilliseconds::new`; the value is a plain number after it.
unfoldable pub unix_milliseconds_new : ℕ → Result JobErrorKind ℕ
unix_milliseconds_new value = if ltb max_i64 value then err invalid_input else ok value

-- `RhiReconciliationRetryDelayMilliseconds::new`.
unfoldable pub retry_delay_new : ℕ → Result JobErrorKind ℕ
retry_delay_new value = if ltb max_backoff_ms value then err invalid_input else ok value

-- `RhiReconciliationLeaseOwner::from_bytes`: the array of zeros is no owner.
unfoldable pub lease_owner_from_bytes : ℕ → Result JobErrorKind ℕ
lease_owner_from_bytes bytes = if bytes == 0 then err invalid_input else ok bytes

pub record Job : Type 0 where
  pub id : ℕ
  pub trade_id : ℕ
  pub input_generation : ℕ
  pub policy_digest : ℕ
  pub state : JobState
  pub revision : ℕ
  pub attempt_count : ℕ
  pub failure_count : ℕ
  pub policy : JobPolicy
  pub next_attempt : Option ℕ
  pub lease_owner : Option ℕ
  pub lease_expires : Option ℕ
  pub created_at : ℕ
  pub updated_at : ℕ

pub record Lease : Type 0 where
  pub job : Job
  pub owner : ℕ
  pub lease_expires : ℕ

pub record ScheduleOutcome : Type 0 where
  pub job : Job
  pub created : Bool

-- `u64::saturating_mul`.
abbrev pub saturating_mul : ℕ → ℕ → ℕ
saturating_mul a b = min (a * b) max_u64

-- `1_u64.checked_shl(exponent).unwrap_or(u64::MAX)`.
abbrev pub shifted_one : ℕ → ℕ
shifted_one exponent = if ltb exponent 64 then 2 ^ exponent else max_u64

unfoldable pub retry_delay_upper_bound : JobPolicy → ℕ → ℕ
retry_delay_upper_bound policy failure_count =
    let exponent = min failure_count 63 in
    min (saturating_mul policy.initial_backoff_ms (shifted_one exponent)) policy.maximum_backoff_ms

-- `RhiReconciliationLease::renewal_due`; `-` stops at 0, as `saturating_sub` does.
abbrev pub renewal_due : Lease → ℕ
renewal_due lease = lease.lease_expires - lease.job.policy.lease_renewal_ms

-- `RhiReconciliationJob::attempt_policy_matches`.
unfoldable pub attempt_policy_matches : Job → JobPolicy → Bool
attempt_policy_matches job expected =
    policy.lease_duration_ms == expected.lease_duration_ms
    && policy.lease_renewal_ms == expected.lease_renewal_ms
    && policy.max_attempts == expected.max_attempts
    && policy.initial_backoff_ms == expected.initial_backoff_ms
    && policy.maximum_backoff_ms == expected.maximum_backoff_ms
  where
    open job use {policy}
