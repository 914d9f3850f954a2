-- ===== src/Jobs/Statements.antt =====
-- The UPDATE, INSERT and SELECT statements of src/reconciliation_job.rs: which rows each takes, and
-- what it writes. A comparison with NULL holds of no row.
use rhi.Base.{
  ℕ, ◌+◌, Bool, true, false, ◌&&◌, ◌||◌, Option, none, some, ok, err, ltb, leb, ◌==◌, ◌=?◌,
  is_some_and, if◌then◌else◌,
}
use rhi.Jobs.Types.{
  JobState, ready, leased, exhausted, superseded, OperationError, Job, JobPolicy, Lease,
}
use rhi.Jobs.Schema.{Row, is_active}
use rhi.Jobs.Store.{Db, DirtyRow, OpResult}

abbrev pub is_leased : JobState → Bool
is_leased leased = true
is_leased _ = false

abbrev pub is_ready : JobState → Bool
is_ready ready = true
is_ready _ = false

-- SUPERSEDE_JOB_SQL.
abbrev pub supersedes : ℕ → ℕ → Row → Bool
supersedes id revision r = r.job_id == id && r.revision == revision && is_active r.state

abbrev pub supersede : ℕ → Row → Row
supersede now r = record r {
  state = superseded;
  revision = r.revision + 1;
  next_attempt_unix_ms = none;
  lease_owner = none;
  lease_expires_unix_ms = none;
  updated_at_unix_ms = now;
}

-- INSERT_JOB_SQL.
abbrev pub fresh_row : ℕ → ℕ → DirtyRow → JobPolicy → ℕ → Row
fresh_row id trade_id dirty policy now = record {
  job_id = id;
  trade_id = trade_id;
  input_generation = dirty.generation;
  evidence_policy_sha256 = dirty.evidence_policy_sha256;
  state = ready;
  revision = 1;
  attempt_count = 0;
  failure_count = 0;
  max_attempts = policy.max_attempts;
  lease_duration_ms = policy.lease_duration_ms;
  lease_renewal_ms = policy.lease_renewal_ms;
  initial_backoff_ms = policy.initial_backoff_ms;
  maximum_backoff_ms = policy.maximum_backoff_ms;
  next_attempt_unix_ms = some now;
  lease_owner = none;
  lease_expires_unix_ms = none;
  created_at_unix_ms = now;
  updated_at_unix_ms = now;
}

-- EXHAUST_EXPIRED_SQL.
abbrev pub spent : ℕ → Row → Bool
spent now r =
    is_leased r.state
    && is_some_and (λ t. leb t now) r.lease_expires_unix_ms
    && leb r.max_attempts r.attempt_count
    && leb r.updated_at_unix_ms now

abbrev pub exhaust_expired : ℕ → Row → Row
exhaust_expired now r = record r {
  state = exhausted;
  revision = r.revision + 1;
  failure_count = r.attempt_count;
  lease_owner = none;
  lease_expires_unix_ms = none;
  updated_at_unix_ms = now;
}

abbrev pub or_zero : Option ℕ → ℕ
or_zero none = 0
or_zero (some n) = n

abbrev pub expiry : Row → ℕ
expiry r = or_zero r.lease_expires_unix_ms

-- READ_CLAIMABLE_SQL and the condition that CLAIM_JOB_SQL repeats.
abbrev pub claimable : ℕ → Row → Bool
claimable now r =
    ltb r.attempt_count r.max_attempts
    && leb r.updated_at_unix_ms now
    && (is_ready r.state && is_some_and (λ t. leb t now) r.next_attempt_unix_ms
        || is_leased r.state && is_some_and (λ t. leb t now) r.lease_expires_unix_ms)

abbrev pub claim_key : Row → ℕ
claim_key r = if is_ready r.state then or_zero r.next_attempt_unix_ms else expiry r

abbrev pub claims : ℕ → ℕ → ℕ → Row → Bool
claims id revision now r = r.job_id == id && r.revision == revision && claimable now r

abbrev pub claim : ℕ → ℕ → ℕ → Row → Row
claim owner expires now r = record r {
  state = leased;
  revision = r.revision + 1;
  attempt_count = r.attempt_count + 1;
  next_attempt_unix_ms = none;
  lease_owner = some owner;
  lease_expires_unix_ms = some expires;
  updated_at_unix_ms = now;
}

-- The compare-and-swap condition of RENEW_JOB_SQL, RETRY_JOB_SQL and EXHAUST_JOB_SQL.
abbrev pub holds : Lease → ℕ → Row → Bool
holds lease now r =
    r.job_id == lease.job.id
    && r.revision == lease.job.revision
    && is_leased r.state
    && r.lease_owner =? some lease.owner
    && r.lease_expires_unix_ms =? some lease.lease_expires
    && is_some_and (λ t. ltb now t) r.lease_expires_unix_ms

abbrev pub renews : Lease → ℕ → Row → Bool
renews lease now r = holds lease now r && leb r.updated_at_unix_ms now

abbrev pub renewed : ℕ → ℕ → Row → Row
renewed expires now r = record r {
  revision = r.revision + 1;
  lease_expires_unix_ms = some expires;
  updated_at_unix_ms = now;
}

abbrev pub retries : Lease → ℕ → Row → Bool
retries lease now r = holds lease now r && ltb r.attempt_count r.max_attempts

abbrev pub retried : ℕ → ℕ → Row → Row
retried next now r = record r {
  state = ready;
  revision = r.revision + 1;
  failure_count = r.failure_count + 1;
  next_attempt_unix_ms = some next;
  lease_owner = none;
  lease_expires_unix_ms = none;
  updated_at_unix_ms = now;
}

abbrev pub exhausts : Lease → ℕ → Row → Bool
exhausts lease now r = holds lease now r && leb r.max_attempts r.attempt_count

abbrev pub exhausted_by_failure : ℕ → Row → Row
exhausted_by_failure now r = record r {
  state = exhausted;
  revision = r.revision + 1;
  failure_count = r.failure_count + 1;
  next_attempt_unix_ms = none;
  lease_owner = none;
  lease_expires_unix_ms = none;
  updated_at_unix_ms = now;
}

-- `if result.rows_affected() != 1 { return Err(e) }`.
abbrev pub one_row : ℕ × Db → OperationError → OpResult Db
one_row (n, db) e = if n == 1 then ok db else err e

abbrev pub leased_only : Option Job → Option Job
leased_only none = none
leased_only (some job) = if is_leased job.state then some job else none
