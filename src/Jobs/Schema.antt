-- ===== src/Jobs/Schema.antt =====
-- The table `reconciliation_jobs` of src/state_catalog.rs: its columns, its CHECK constraints with
-- the two shape triggers, its unique index and its update trigger. A blob of fixed length is a
-- number, so that its length check holds by reading; an integer column that the checks keep at 0
-- or more is a number.
use rhi.Base.{
  ℕ, ◌+◌, Bool, true, false, ◌&&◌, not, Option, List, [], ◌∷◌, ltb, leb, ◌==◌, between, is_none,
  is_some, is_some_and, max_i64, any,
}
use rhi.Jobs.Types.{
  JobState, ready, leased, exhausted, superseded, completed, max_attempts_limit, max_lease_ms,
  max_renewal_ms, max_initial_backoff_ms, max_backoff_ms,
}

pub record Row : Type 0 where
  pub job_id : ℕ
  pub trade_id : ℕ
  pub input_generation : ℕ
  pub evidence_policy_sha256 : ℕ
  pub state : JobState
  pub revision : ℕ
  pub attempt_count : ℕ
  pub failure_count : ℕ
  pub max_attempts : ℕ
  pub lease_duration_ms : ℕ
  pub lease_renewal_ms : ℕ
  pub initial_backoff_ms : ℕ
  pub maximum_backoff_ms : ℕ
  pub next_attempt_unix_ms : Option ℕ
  pub lease_owner : Option ℕ
  pub lease_expires_unix_ms : Option ℕ
  pub created_at_unix_ms : ℕ
  pub updated_at_unix_ms : ℕ

-- The last CHECK of the table, with a NULL in it ruled out by the shape triggers.
unfoldable pub shape_checks : JobState → Row → Bool
shape_checks ready r =
    ltb r.attempt_count r.max_attempts
    && is_some_and (λ t. leb t max_i64) r.next_attempt_unix_ms
    && is_none r.lease_owner
    && is_none r.lease_expires_unix_ms
shape_checks leased r =
    between 1 r.max_attempts r.attempt_count
    && is_none r.next_attempt_unix_ms
    && is_some r.lease_owner
    && is_some_and (between 1 max_i64) r.lease_expires_unix_ms
shape_checks _ r =
    is_none r.next_attempt_unix_ms && is_none r.lease_owner && is_none r.lease_expires_unix_ms

-- The column checks and the checks between columns.
unfoldable pub column_checks : Row → Bool
column_checks r =
    between 1 max_i64 r.input_generation
    && between 1 max_i64 r.revision
    && leb r.attempt_count max_attempts_limit
    && leb r.failure_count r.attempt_count
    && between 1 max_attempts_limit r.max_attempts
    && between 1000 max_lease_ms r.lease_duration_ms
    && between 100 max_renewal_ms r.lease_renewal_ms
    && between 1 max_initial_backoff_ms r.initial_backoff_ms
    && between 1 max_backoff_ms r.maximum_backoff_ms
    && leb r.created_at_unix_ms max_i64
    && between r.created_at_unix_ms max_i64 r.updated_at_unix_ms
    && ltb r.lease_renewal_ms r.lease_duration_ms
    && leb r.initial_backoff_ms r.maximum_backoff_ms

unfoldable pub row_checks : Row → Bool
unfolding shape_checks column_checks
row_checks r = column_checks r && shape_checks r.state r

abbrev pub is_active : JobState → Bool
is_active ready = true
is_active leased = true
is_active _ = false

-- `reconciliation_jobs_one_active_per_trade`.
abbrev pub same_active_trade : Row → Row → Bool
same_active_trade r s = is_active r.state && is_active s.state && r.trade_id == s.trade_id

unfoldable pub one_active_per_trade : List Row → Bool
one_active_per_trade [] = true
one_active_per_trade (r ∷ rows) = not (any (same_active_trade r) rows) && one_active_per_trade rows

-- The moves between states that `reconciliation_jobs_guard_update` lets pass.
unfoldable pub allowed_move : JobState → JobState → Bool
allowed_move ready leased = true
allowed_move ready superseded = true
allowed_move leased leased = true
allowed_move leased ready = true
allowed_move leased exhausted = true
allowed_move leased superseded = true
allowed_move leased completed = true
allowed_move exhausted superseded = true
allowed_move _ _ = false

-- `reconciliation_jobs_guard_update`: true where the trigger does not abort.
unfoldable pub guard_update : Row → Row → Bool
unfolding allowed_move
guard_update old new =
    new.job_id == old.job_id
    && new.trade_id == old.trade_id
    && new.input_generation == old.input_generation
    && new.evidence_policy_sha256 == old.evidence_policy_sha256
    && new.max_attempts == old.max_attempts
    && new.lease_duration_ms == old.lease_duration_ms
    && new.lease_renewal_ms == old.lease_renewal_ms
    && new.initial_backoff_ms == old.initial_backoff_ms
    && new.maximum_backoff_ms == old.maximum_backoff_ms
    && new.created_at_unix_ms == old.created_at_unix_ms
    && new.revision == old.revision + 1
    && leb old.updated_at_unix_ms new.updated_at_unix_ms
    && allowed_move old.state new.state
