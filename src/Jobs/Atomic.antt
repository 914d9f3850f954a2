-- ===== src/Jobs/Atomic.antt =====
-- The methods of `RhiReconciliationJobRepository` in src/reconciliation_job.rs: their checks, and
-- what their transactions leave.
use rhi.Jobs.Types.{
  JobErrorKind, commit_outcome_unknown, storage, JobPolicy, Lease, OperationError, invalid_input,
  invalid_mode, lease_lost, not_ready, renewal_due, retry_delay_upper_bound,
}
use rhi.Jobs.Store.{Db, OpResult}
use rhi.Jobs.Operations.{claim_next, record_failure, renew, schedule}
use rhi.Jobs.Repository.{
  engine, map_transaction_error, Host, outcome_unknown, schedule_trade, after_checks,
  claim_next_job, operation, renew_lease, record_lease_failure,
}
use rhi.Base.{
  Bool-cases, List, Result, Result-cases, arith, err, false, inl, inr, leb, ltb, ok, refl, true, ℕ,
  ◌+◌, ◌<◌, ◌≡◌, ◌≤◌, ◌⊎◌,
}

-- A method that is refused: the error, and the tables as they were.
abbrev pub Refused : {A : Type 0} → JobErrorKind → (Db → Result JobErrorKind A × Db) → Db → Type 0
Refused e method db = method db ≡ (err e, db)

-- How the repository reports an error of an operation.
pub data Reports : OperationError → JobErrorKind → Type 0 where
  as_invalid_input : Reports OperationError.invalid_input JobErrorKind.invalid_input
  as_queue_full : Reports OperationError.queue_full JobErrorKind.queue_full
  as_generation_conflict :
      Reports OperationError.dirty_generation_conflict JobErrorKind.dirty_generation_conflict
  as_lease_lost : Reports OperationError.lease_lost JobErrorKind.lease_lost
  as_not_ready : Reports OperationError.not_ready JobErrorKind.not_ready
  as_storage : Reports OperationError.storage JobErrorKind.storage

reports : (e : OperationError) → Reports e (map_transaction_error (operation e))
unfolding map_transaction_error
reports OperationError.invalid_input = as_invalid_input
reports OperationError.queue_full = as_queue_full
reports OperationError.dirty_generation_conflict = as_generation_conflict
reports OperationError.lease_lost = as_lease_lost
reports OperationError.not_ready = as_not_ready
reports OperationError.storage = as_storage

-- A method that ran its operation: the operation's value, committed; the operation's own error or
-- a failure of the engine, with the tables as they were; or an unknown outcome, with either.
abbrev pub Ran :
    {A : Type 0} → (Db → OpResult (A × Db)) → (Db → Result JobErrorKind A × Db) → Db → Type 0
Ran {A} op method db =
    ((a : A) × (db' : Db) × (op db ≡ ok (a, db')) × (method db ≡ (ok a, db')))
    ⊎ ((e : OperationError) × (k : JobErrorKind) × (op db ≡ err e)
        × Reports e k
        × Refused k method db)
    ⊎ Refused storage method db
    ⊎ ((db' : Db) × (method db ≡ (err commit_outcome_unknown, db'))
        × ((db' ≡ db) ⊎ ((a : A) × (op db ≡ ok (a, db')))))

module _ (sha256 : List ℕ → ℕ) (host : Host) where
  -- What the transaction leaves, by its result.
  ran :
      {A : Type 0} (op : Db → OpResult (A × Db)) (db : Db)
      → Ran op (after_checks sha256 host (ok tt) op) db
  unfolding map_transaction_error
  ran op db = elim (Result-cases (host.transaction op db).0) [
    | inl (a, returned) ↦
        inl (a, (host.transaction op db).1, host.committed op db a returned, rw returned refl)
    | inr (operation e, broke) ↦ inr (
        inl (
          e,
          map_transaction_error (operation e),
          host.reported op db e broke,
          reports e,
          rw (broke, host.rolled_back op db e (inl broke)) refl,
        ))
    | inr (engine, broke) ↦
        inr (inr (inl (rw (broke, host.rolled_back op db storage (inr broke)) refl)))
    | inr (outcome_unknown, broke) ↦
        inr (inr (inr ((host.transaction op db).1, rw broke refl, host.either op db broke)))
  ]

  -- A renewal is for a lease that is not over, from its renewal time on.
  abbrev pub RenewalCases : Lease → ℕ → Db → Type 0
  RenewalCases lease now db =
      ((lease.lease_expires ≤ now) × Refused lease_lost (renew_lease sha256 host lease now) db)
      ⊎ ((now < lease.lease_expires)
          × (now + lease.job.policy.lease_renewal_ms < lease.lease_expires)
          × Refused not_ready (renew_lease sha256 host lease now) db)
      ⊎ ((now < lease.lease_expires)
          × (lease.lease_expires ≤ now + lease.job.policy.lease_renewal_ms)
          × Ran (renew sha256 lease now) (renew_lease sha256 host lease now) db)

  -- A failure is of a lease that is not over, with a delay within the bound of its policy.
  abbrev pub FailureCases : Lease → ℕ → ℕ → Db → Type 0
  FailureCases lease now delay db =
      ((lease.lease_expires ≤ now)
        × Refused lease_lost (record_lease_failure sha256 host lease now delay) db)
      ⊎ ((now < lease.lease_expires)
          × (retry_delay_upper_bound lease.job.policy lease.job.failure_count < delay)
          × Refused invalid_input (record_lease_failure sha256 host lease now delay) db)
      ⊎ ((now < lease.lease_expires)
          × (delay ≤ retry_delay_upper_bound lease.job.policy lease.job.failure_count)
          × Ran (record_failure sha256 lease now delay)
              (record_lease_failure sha256 host lease now delay) db)

  renewal_cases :
      (lease : Lease) (now : ℕ) (db : Db) → host.writable ≡ true → RenewalCases lease now db
  unfolding renew_lease
  renewal_cases lease now db open_now = elim (Bool-cases (leb lease.lease_expires now)) [
    | inl over ↦ inl (ground arith, rw (open_now, over) refl)
    | inr live ↦ elim (Bool-cases (ltb now (renewal_due lease))) [
      | inl early ↦ inr (inl (ground arith, ground arith, rw (open_now, live, early) refl))
      | inr due ↦ inr (
          inr (
            ground arith,
            ground arith,
            rw (open_now, live, due) (ran (renew sha256 lease now) db),
          ))
    ]
  ]

  failure_cases :
      (lease : Lease) (now delay : ℕ) (db : Db)
      → host.writable ≡ true
      → FailureCases lease now delay db
  unfolding record_lease_failure
  failure_cases lease now delay db open_now = elim (Bool-cases (leb lease.lease_expires now)) [
    | inl over ↦ inl (ground arith, rw (open_now, over) refl)
    | inr live ↦
        let bound = retry_delay_upper_bound lease.job.policy lease.job.failure_count in
        elim (Bool-cases (ltb bound delay)) [
          | inl long ↦ inr (inl (ground arith, ground arith, rw (open_now, live, long) refl))
          | inr short ↦ inr (
              inr (
                ground arith,
                ground arith,
                rw (open_now, live, short) (ran (record_failure sha256 lease now delay) db),
              ))
        ]
  ]

  abbrev pub MethodCases : ℕ → ℕ → ℕ → ℕ → JobPolicy → Lease → Db → Type 0
  MethodCases trade_id owner now delay policy lease db =
      ((host.writable ≡ false)
        × Refused invalid_mode (schedule_trade sha256 host trade_id policy now) db
        × Refused invalid_mode (claim_next_job sha256 host owner now) db
        × Refused invalid_mode (renew_lease sha256 host lease now) db
        × Refused invalid_mode (record_lease_failure sha256 host lease now delay) db)
      ⊎ ((host.writable ≡ true)
          × Ran (schedule sha256 trade_id policy now)
              (schedule_trade sha256 host trade_id policy now) db
          × Ran (claim_next sha256 owner now) (claim_next_job sha256 host owner now) db
          × RenewalCases lease now db
          × FailureCases lease now delay db)

  -- Over a host that keeps its laws: without a writable host the four methods of the repository
  -- are refused as InvalidMode. With one, `schedule_trade` and `claim_next` run; `renew` is
  -- LeaseLost from the end of the lease on, NotReady before its renewal time, and else runs;
  -- `record_failure` is LeaseLost from the end of the lease on, InvalidInput for a delay above the
  -- retry bound, and else runs. A method that is refused leaves the tables as they were. A method
  -- that runs returns the value of its operation with the operation's tables; or the operation's
  -- error under its own kind, or Storage, with the tables as they were; or CommitOutcomeUnknown
  -- with the old tables or the operation's.
  pub methods-cases :
      (trade_id owner now delay : ℕ) (policy : JobPolicy) (lease : Lease) (db : Db)
      → MethodCases trade_id owner now delay policy lease db
  unfolding schedule_trade claim_next_job renew_lease record_lease_failure
  methods-cases trade_id owner now delay policy lease db = elim (Bool-cases host.writable) [
    | inr closed ↦ inl (closed, rw closed refl, rw closed refl, rw closed refl, rw closed refl)
    | inl open_now ↦ inr (
      open_now,
      rw open_now (ran (schedule sha256 trade_id policy now) db),
      rw open_now (ran (claim_next sha256 owner now) db),
      renewal_cases lease now db open_now,
      failure_cases lease now delay db open_now,
    )
  ]
