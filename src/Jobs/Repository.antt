-- ===== src/Jobs/Repository.antt =====
-- The methods of `RhiReconciliationJobRepository` in src/reconciliation_job.rs. The state host and
-- its transaction runner stand outside the repository: they are a parameter, with what its callers
-- rely on as laws.
use rhi.Jobs.Operations.{claim_next, schedule, record_failure, renew}
use rhi.Base.{
  ◌>>◌, Bool, ◌≡◌, ◌⊎◌, Result, ok, err, List, ℕ, Option, map_err, require, refuse, leb, ltb,
}
use rhi.Jobs.Types.{
  JobErrorKind, OperationError, invalid_input, queue_full, dirty_generation_conflict, lease_lost,
  not_ready, storage, commit_outcome_unknown, JobPolicy, Lease, Job, ScheduleOutcome, invalid_mode,
  renewal_due, retry_delay_upper_bound,
}
use rhi.Jobs.Store.{Db, OpResult}

-- `ServiceSqliteTransactionError`: the operation's own error, a failure of the engine, or a commit
-- whose outcome is not known.
pub data TransactionError : Type 0 where
  operation : OperationError → TransactionError
  engine : TransactionError
  outcome_unknown : TransactionError

pub record Host : Type 1 where
  pub writable : Bool
  pub transaction : {A : Type 0} → (Db → OpResult (A × Db)) → Db → Result TransactionError A × Db
  -- A result that is returned was computed and committed.
  pub committed :
      {A : Type 0} (op : Db → OpResult (A × Db)) (db : Db) (a : A)
      → (transaction op db).0 ≡ ok a
      → op db ≡ ok (a, (transaction op db).1)
  -- An error that is reported as the operation's is the one that it returned.
  pub reported :
      {A : Type 0} (op : Db → OpResult (A × Db)) (db : Db) (e : OperationError)
      → (transaction op db).0 ≡ err (operation e)
      → op db ≡ err e
  -- A failure of the operation or the engine rolls back.
  pub rolled_back :
      {A : Type 0} (op : Db → OpResult (A × Db)) (db : Db) (e : OperationError)
      → ((transaction op db).0 ≡ err (operation e)) ⊎ ((transaction op db).0 ≡ err engine)
      → (transaction op db).1 ≡ db
  -- An unknown outcome is either the old tables or the committed ones.
  pub either :
      {A : Type 0} (op : Db → OpResult (A × Db)) (db : Db)
      → (transaction op db).0 ≡ err outcome_unknown
      → ((transaction op db).1 ≡ db) ⊎ ((a : A) × (op db ≡ ok (a, (transaction op db).1)))

unfoldable pub map_transaction_error : TransactionError → JobErrorKind
map_transaction_error outcome_unknown = commit_outcome_unknown
map_transaction_error (operation invalid_input) = invalid_input
map_transaction_error (operation queue_full) = queue_full
map_transaction_error (operation dirty_generation_conflict) = dirty_generation_conflict
map_transaction_error (operation lease_lost) = lease_lost
map_transaction_error (operation not_ready) = not_ready
map_transaction_error (operation storage) = storage
map_transaction_error engine = storage

module _ (sha256 : List ℕ → ℕ) (host : Host) where
  abbrev run : {A : Type 0} → (Db → OpResult (A × Db)) → Db → Result JobErrorKind A × Db
  run op db = (map_err map_transaction_error (host.transaction op db).0, (host.transaction op db).1)

  -- A method that is refused before its transaction leaves the tables alone.
  abbrev pub after_checks :
      {A : Type 0}
      → Result JobErrorKind (Unit {0})
      → (Db → OpResult (A × Db))
      → Db
      → Result JobErrorKind A × Db
  after_checks (ok _) op db = run op db
  after_checks (err e) op db = (err e, db)

  abbrev require_writable : Result JobErrorKind (Unit {0})
  require_writable = require host.writable invalid_mode

  unfoldable pub schedule_trade : ℕ → JobPolicy → ℕ → Db → Result JobErrorKind ScheduleOutcome × Db
  schedule_trade trade_id policy now =
      after_checks require_writable (schedule sha256 trade_id policy now)

  unfoldable pub claim_next_job : ℕ → ℕ → Db → Result JobErrorKind (Option Lease) × Db
  claim_next_job owner now = after_checks require_writable (claim_next sha256 owner now)

  unfoldable pub renew_lease : Lease → ℕ → Db → Result JobErrorKind Lease × Db
  renew_lease lease now =
      after_checks
        (do
          require_writable
          refuse (leb lease.lease_expires now) lease_lost
          refuse (ltb now (renewal_due lease)) not_ready)
        (renew sha256 lease now)

  unfoldable pub record_lease_failure : Lease → ℕ → ℕ → Db → Result JobErrorKind Job × Db
  record_lease_failure lease now delay =
      after_checks
        (do
          require_writable
          refuse (leb lease.lease_expires now) lease_lost
          refuse (ltb (retry_delay_upper_bound lease.job.policy lease.job.failure_count) delay)
              invalid_input)
        (record_failure sha256 lease now delay)
