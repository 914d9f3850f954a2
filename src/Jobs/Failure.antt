-- ===== src/Jobs/Failure.antt =====
-- `record_failure` of src/reconciliation_job.rs on well-formed tables.
use rhi.Jobs.Swap.{swap_cases, Swapped, time_after-le, lt→leb, i64_value-le}
use rhi.Jobs.Rows.{retried-fits, exhausted_by_failure-fits}
use rhi.Jobs.Statements.{exhausts, retries, exhausted_by_failure, retried}
use rhi.Jobs.Operations.{record_failure, time_after}
use rhi.Jobs.Types.{Lease, invalid_input}
use rhi.Jobs.Target.{read_job-DbValid}
use rhi.Jobs.Tables.{RowsFit, NotBefore, RowsFit-of_NotBefore}
use rhi.Jobs.Valid.{DbValid}
use rhi.Jobs.Store.{Db}
use rhi.Base.{ℕ, inl, inr, suc, List, refl, ◌≤◌, max_i64, ◌<◌, ◌+◌, arith, le→leb, none, err, ◌≡◌}

module _ (sha256 : List ℕ → ℕ) (room : ℕ) (db : Db) (v : DbValid sha256 (suc room) db) where
  failure_fits :
      (lease : Lease) (now next : ℕ)
      → now ≤ max_i64
      → next ≤ max_i64
      → NotBefore now db.jobs
      → RowsFit sha256 room (retries lease now) (retried next now) db.jobs
        × RowsFit sha256 room (exhausts lease now) (exhausted_by_failure now) db.jobs
  failure_fits lease now next small bounded late = (
    RowsFit-of_NotBefore sha256 room _ _ now db.jobs v.rows late
        (λ r w h later. retried-fits sha256 room _ lease next now r w h later bounded small),
    RowsFit-of_NotBefore sha256 room _ _ now db.jobs v.rows late
        (λ r w h later. exhausted_by_failure-fits sha256 room _ lease now r w h later small),
  )

  -- On well-formed tables that the clock is not behind, with no attempt left, `record_failure`
  -- either is LeaseLost and no row meets the compare-and-swap, or exhausts the leased job, with
  -- well-formed tables in which every row succeeds its old one.
  pub record_final_failure :
      (lease : Lease) (now delay : ℕ)
      → now ≤ max_i64
      → NotBefore now db.jobs
      → lease.job.policy.max_attempts ≤ lease.job.attempt_count
      → Swapped sha256 room db v lease
          (exhausts lease now)
          (exhausted_by_failure now)
          (record_failure sha256 lease now delay db)
  unfolding record_failure
  record_final_failure lease now delay small late last =
      elim (swap_cases sha256 room db v lease.job.id (exhausts lease now) (exhausted_by_failure now)
        (λ r h. ground arith) (λ r. refl) (failure_fits lease now now small small late).1) [
          | inl (e, lost) ↦
              inl (rw (i64_value-le now small, le→leb _ _ last, e, record_failure), lost)
          | inr (r, found, hit, e, valid, read, moved) ↦ inr (
            r,
            (found, hit),
            rw (
              i64_value-le now small,
              le→leb _ _ last,
              e,
              read_job-DbValid sha256 room lease.job.id _ valid,
              read,
              record_failure,
            ),
            valid,
            moved,
          )
        ]

  -- On well-formed tables that the clock is not behind, with an attempt left and the retry time in
  -- range, `record_failure` either is LeaseLost and no row meets the compare-and-swap, or makes
  -- the leased job ready again after the delay, with well-formed tables in which every row
  -- succeeds its old one.
  pub record_retried_failure :
      (lease : Lease) (now delay : ℕ)
      → now + delay ≤ max_i64
      → NotBefore now db.jobs
      → lease.job.attempt_count < lease.job.policy.max_attempts
      → Swapped sha256 room db v lease
          (retries lease now)
          (retried (now + delay) now)
          (record_failure sha256 lease now delay db)
  unfolding record_failure
  record_retried_failure lease now delay fits late more =
      let small : now ≤ max_i64 = omega arith in
      let time_in = time_after-le now delay fits in
      elim (swap_cases sha256 room db v lease.job.id (retries lease now) (retried (now + delay) now)
        (λ r h. ground arith) (λ r. refl)
        (failure_fits lease now (now + delay) small fits late).0) [
          | inl (e, lost) ↦
              inl (rw (i64_value-le now small, lt→leb _ _ more, time_in, e, record_failure), lost)
          | inr (r, found, hit, e, valid, read, moved) ↦ inr (
            r,
            (found, hit),
            rw (
              i64_value-le now small,
              lt→leb _ _ more,
              time_in,
              e,
              read_job-DbValid sha256 room lease.job.id _ valid,
              read,
              record_failure,
            ),
            valid,
            moved,
          )
        ]

  -- A retry whose time is out of range is refused before any write.
  pub record_failure_out_of_range :
      (lease : Lease) (now delay : ℕ)
      → now ≤ max_i64
      → lease.job.attempt_count < lease.job.policy.max_attempts
      → max_i64 < now + delay
      → record_failure sha256 lease now delay db ≡ err invalid_input
  unfolding record_failure
  record_failure_out_of_range lease now delay small more out =
      let none_kept : time_after now delay ≡ none = ground arith in
      rw (i64_value-le now small, lt→leb _ _ more, none_kept)
