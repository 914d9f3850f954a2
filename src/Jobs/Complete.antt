-- ===== src/Jobs/Complete.antt =====
-- COMPLETE_JOB_SQL of src/reconciliation_finalization_commit.rs, the one statement on reconciliation
-- jobs outside src/reconciliation_job.rs: the end of a finalization closes the leased job. Of the
-- errors of a finalization it has `LeaseLost` and `Storage`.
use rhi.Jobs.Swap.{swap_cases, updated}
use rhi.Jobs.Tables.{RowsFit-of, StatementFits}
use rhi.Jobs.History.{AllSucceed-Extends, Extends}
use rhi.Jobs.Statements.{is_leased, one_row}
use rhi.Jobs.Types.{Lease, OperationError, completed, lease_lost, storage}
use rhi.Jobs.Valid.{DbValid, RowValid}
use rhi.Jobs.Store.{Db, OpResult, update_jobs}
use rhi.Jobs.Schema.{Row, column_checks, guard_update, shape_checks}
use rhi.Base.{
  Bool, List, and_then-ok, arith, err_ne_ok, inl, inr, leb, max_i64, none, ok, ok-injective, refl,
  require, some, suc, subst, true, ℕ, ◌&&◌, ◌+◌, ◌=?◌, ◌==◌, ◌>>=◌, ◌>>◌, ◌≡◌, ◌≤◌,
}

-- The condition of COMPLETE_JOB_SQL, and what it writes.
abbrev pub completes : ℕ → ℕ → ℕ → ℕ → ℕ → Row → Bool
completes id revision owner expires now r =
    r.job_id == id
    && is_leased r.state
    && r.revision == revision
    && r.lease_owner =? some owner
    && r.lease_expires_unix_ms =? some expires
    && leb r.updated_at_unix_ms now

abbrev pub completed_at : ℕ → Row → Row
completed_at now r = record r {
  state = completed;
  revision = r.revision + 1;
  next_attempt_unix_ms = none;
  lease_owner = none;
  lease_expires_unix_ms = none;
  updated_at_unix_ms = now;
}

-- The values that are bound, the statement, and the test of the rows that it changed.
unfoldable pub complete_job : ℕ → Lease → ℕ → Db → OpResult Db
complete_job id lease now db = do
  require (leb now max_i64) storage
  require (leb lease.job.revision max_i64) storage
  require (leb lease.lease_expires max_i64) storage
  changed ←
      update_jobs (completes id lease.job.revision lease.owner lease.lease_expires now)
        (completed_at now) db
  one_row changed lease_lost

module _ (sha256 : List ℕ → ℕ) (room : ℕ) where
  completed_at-fits :
      (p : Row → Bool) (id revision owner expires now : ℕ) (r : Row)
      → RowValid sha256 (suc room) r
      → completes id revision owner expires now r ≡ true
      → now ≤ max_i64
      → StatementFits sha256 room p (completed_at now) r
  unfolding column_checks shape_checks guard_update
  completed_at-fits p id revision owner expires now r v h small = record {
    guarded = ground (arith, v.columns);
    valid = record {
      columns = ground (arith, v.columns);
      shape = refl;
      identity = v.identity;
      roomy = omega (arith, v.roomy);
      owned = refl;
      unfailed = λ h. cc;
      within = v.within;
    };
    succeeds = record {
      same_id = refl;
      same_trade = refl;
      no_new_activity = λ h. cc;
      advances = omega arith;
      attempts = omega arith;
      same_limit = refl;
    };
  }

  small_time : (now : ℕ) → require (leb now max_i64) OperationError.storage ≡ ok tt → now ≤ max_i64
  small_time now h = ground arith

  -- A completion that goes well keeps the tables well formed and loses no job.
  pub complete_job-ok :
      (id : ℕ) (lease : Lease) (now : ℕ) (db db' : Db)
      → DbValid sha256 (suc room) db
      → complete_job id lease now db ≡ ok db'
      → DbValid sha256 room db' × Extends db db'
  unfolding complete_job
  complete_job-ok id lease now db db' v h =
      let (_, e1, h1) = and_then-ok (require (leb now max_i64) OperationError.storage) h in
      let (_, e2, h2) =
        and_then-ok (require (leb lease.job.revision max_i64) OperationError.storage) h1 in
      let (_, e3, h3) =
        and_then-ok (require (leb lease.lease_expires max_i64) OperationError.storage) h2 in
      let small : now ≤ max_i64 = small_time now e1 in
      let p = completes id lease.job.revision lease.owner lease.lease_expires now in
      elim (swap_cases sha256 room db v id p (completed_at now) (λ r taken. ground arith)
        (λ r. refl)
        (RowsFit-of sha256 room p (completed_at now) db.jobs v.rows λ r w taken.
          completed_at-fits p id lease.job.revision lease.owner lease.lease_expires now r w taken
            small)) [
              | inl (e, lost) ↦ absurd (err_ne_ok (rw e at h3))
              | inr (r, found, hit, e, valid, read, moved) ↦
                  let same : updated p (completed_at now) db ≡ db' = ok-injective (rw e at h3) in
                  subst (λ d. DbValid sha256 room d × Extends db d) same
                    (valid, AllSucceed-Extends db (updated p (completed_at now) db) moved)
            ]
