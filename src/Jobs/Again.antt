-- ===== src/Jobs/Again.antt =====
-- `schedule` of src/reconciliation_job.rs, called again for the same input.
use rhi.Jobs.Schedule.{schedule-cases, scheduled_db, new_row}
use rhi.Jobs.Backoff.{PolicyValid}
use rhi.Jobs.Tables.{NotBefore}
use rhi.Jobs.Target.{row_of, read_job-DbValid}
use rhi.Jobs.Valid.{DbValid, job_of}
use rhi.Jobs.Schema.{Row}
use rhi.Jobs.Types.{JobPolicy, ScheduleOutcome}
use rhi.Jobs.Decode.{read_dirty, job_id}
use rhi.Jobs.Operations.{schedule, same_identity}
use rhi.Jobs.Store.{DirtyRow, Db}
use rhi.Base.{
  ℕ, some, true, false, inl, inr, ok, suc, List, ◌≡◌, ◌≤◌, max_i64, ◌+◌, Bool-cases, subst,
  ok-injective, sym, ◌∙◌, ==_self, err_ne_ok,
}

module _ (sha256 : List ℕ → ℕ) (trade_id : ℕ) (dirty : DirtyRow) where
  known_again :
      (room : ℕ) (db : Db) (r : Row)
      → DbValid sha256 room db
      → read_dirty trade_id db ≡ ok dirty
      → row_of (job_id sha256 trade_id dirty.generation dirty.evidence_policy_sha256) db.jobs
        ≡ some r
      → same_identity sha256 (job_of r) trade_id dirty ≡ true
      → (policy : JobPolicy) (now : ℕ)
      → schedule sha256 trade_id policy now db ≡ ok (record { job = job_of r; created = false }, db)
  unfolding schedule
  known_again room db r v read found same policy now = rw (
    read,
    read_job-DbValid sha256 room
        (job_id sha256 trade_id dirty.generation dirty.evidence_policy_sha256) db v,
    found,
    same,
  )

  read_dirty-same :
      (db db' : Db) → db'.dirty ≡ db.dirty → read_dirty trade_id db' ≡ read_dirty trade_id db
  unfolding read_dirty
  read_dirty-same db db' same = rw same

  module _ (room now : ℕ) (policy : JobPolicy) (db : Db) (v : DbValid sha256 (suc room) db)
      (late : NotBefore now db.jobs) (small : now ≤ max_i64) (roomy : 1 + room ≤ max_i64)
      (usual : PolicyValid policy) (read : read_dirty trade_id db ≡ ok dirty) where
    -- On well-formed tables that the clock is not behind, for a policy in range and a trade whose
    -- dirty generation reads: once `schedule` has returned a job, calling it again, under any
    -- policy and at any time, returns that job as not created and changes nothing.
    pub schedule-again :
        (outcome : ScheduleOutcome) (db' : Db)
        → schedule sha256 trade_id policy now db ≡ ok (outcome, db')
        → (policy' : JobPolicy) (now' : ℕ)
        → schedule sha256 trade_id policy' now' db'
          ≡ ok (record { job = outcome.job; created = false }, db')
    schedule-again outcome db' e policy' now' =
        elim (schedule-cases sha256 room trade_id now policy dirty db v late small roomy usual
          read) [
            | inl (r, found, e') ↦
                elim (Bool-cases (same_identity sha256 (job_of r) trade_id dirty)) [
                  | inl same ↦
                      subst Again (ok-injective (sym (rw same at e') ∙ e))
                        (known_again (suc room) db r v read found same policy' now')
                  | inr other ↦ absurd (err_ne_ok (sym (rw other at e') ∙ e))
                ]
            | inr (inl (inl (e', _))) ↦ absurd (err_ne_ok (sym e' ∙ e))
            | inr (inl (inr (e', _))) ↦ absurd (err_ne_ok (sym e' ∙ e))
            | inr (inr (e', at_new, valid, _, _, same_dirty)) ↦
                subst Again (ok-injective (sym e' ∙ e)) (
                  known_again room (scheduled_db sha256 room trade_id now policy dirty db)
                    (new_row sha256 room trade_id now policy dirty db) valid
                    (read_dirty-same db (scheduled_db sha256 room trade_id now policy dirty db)
                        same_dirty
                      ∙ read)
                    at_new
                    (rw (
                      ==_self trade_id,
                      ==_self dirty.generation,
                      ==_self dirty.evidence_policy_sha256,
                    ))
                    policy' now')
          ]
      where
        Again : ScheduleOutcome × Db → Type 0
        Again out =
            schedule sha256 trade_id policy' now' out.1
            ≡ ok (record { job = out.0.job; created = false }, out.1)
