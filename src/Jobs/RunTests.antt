-- ===== src/Jobs/RunTests.antt =====
-- The theorems on scheduling and on runs at the sample tables.
use rhi.Jobs.Fence.{LeaseValidationError, validate_exact_lease, claim_next-validate, stale-validate}
use rhi.Jobs.Complete.{complete_job, completed_at}
use rhi.Jobs.Store.{update_jobs}
use rhi.Jobs.Schema.{
  Row, allowed_move, column_checks, guard_update, one_active_per_trade, row_checks, shape_checks,
}
use rhi.Jobs.Steps.{claimed_one, completed_one, dirtied}
use rhi.Jobs.Runs.{Run, claims_in, Run-claims_le, Run-DbValid, next, stale_for_ever, done}
use rhi.Jobs.Samples.{
  hash, lease_before, tables, usual_policy, leased_row, ready_row, the_dirty, no_jobs,
  tables-DbValid, leased_row-RowValid, no_jobs-DbValid, ready_row-RowValid, owner_not_zero,
  usual_policy-PolicyValid, claims_ready, reads_no_jobs, schedules_first,
}
use rhi.Jobs.History.{Extends}
use rhi.Jobs.Operations.{record_failure, renew, schedule}
use rhi.Jobs.Claim.{lease_for}
use rhi.Jobs.Schedule.{schedule-cases, Known, Refused, Created}
use rhi.Jobs.Again.{schedule-again}
use rhi.Jobs.Valid.{job_of, DbValid}
use rhi.Jobs.Types.{lease_lost}
use rhi.Base.{refl, [], ◌+◌, ◌≡◌, arith, true, false, ok, err, ◌⊎◌, ◌≤◌}

schedule-cases_example :
    Known hash 1 3 1000 usual_policy the_dirty no_jobs
    ⊎ Refused hash 1 3 1000 usual_policy the_dirty no_jobs
    ⊎ Created hash 1 3 1000 usual_policy the_dirty no_jobs
schedule-cases_example =
    schedule-cases hash 1 3 1000 usual_policy the_dirty no_jobs (no_jobs-DbValid 2) tt (omega arith)
      (omega arith) usual_policy-PolicyValid reads_no_jobs

schedule-again_example :
    schedule hash 3 usual_policy 9000 (tables ready_row)
    ≡ ok (record { job = job_of ready_row; created = false }, tables ready_row)
schedule-again_example =
    schedule-again hash 3 the_dirty 1 1000 usual_policy no_jobs (no_jobs-DbValid 2) tt (omega arith)
      (omega arith) usual_policy-PolicyValid reads_no_jobs
      (record { job = job_of ready_row; created = true }) (tables ready_row) schedules_first
      usual_policy 9000

abbrev completed_row : Row
completed_row = completed_at 2000 leased_row

completes_it :
    complete_job 50300 (lease_for 77 1000 ready_row) 2000 (tables leased_row)
    ≡ ok (tables completed_row)
unfolding complete_job update_jobs one_active_per_trade row_checks guard_update column_checks
    shape_checks allowed_move
completes_it = refl

abbrev claim_and_complete : Run hash 2 (tables ready_row) (tables completed_row)
claim_and_complete =
    next
      (claimed_one 77 1000 (lease_for 77 1000 ready_row) owner_not_zero (omega arith) claims_ready)
      (next (completed_one 50300 (lease_for 77 1000 ready_row) 2000 completes_it) done)

Run-DbValid_example :
    DbValid hash 0 (tables completed_row) × Extends (tables ready_row) (tables completed_row)
Run-DbValid_example =
    Run-DbValid hash 2 0 (tables-DbValid 4 ready_row (ready_row-RowValid 4 (omega arith)))
      (omega arith) claim_and_complete

Run-claims_le_example : 0 + claims_in hash 50300 claim_and_complete ≤ 3
Run-claims_le_example =
    Run-claims_le hash 50300 2 0 ready_row claim_and_complete
      (tables-DbValid 4 ready_row (ready_row-RowValid 4 (omega arith))) (omega arith) refl

abbrev then_dirtied : Run hash 1 (tables leased_row) (record (tables leased_row) { dirty = [] })
then_dirtied = next (dirtied []) done

stale_for_ever_example :
    (renew hash lease_before 1000 (record (tables leased_row) { dirty = [] }) ≡ err lease_lost)
    × (record_failure hash lease_before 1000 250 (record (tables leased_row) { dirty = [] })
        ≡ err lease_lost)
stale_for_ever_example =
    stale_for_ever hash 1 0 then_dirtied
      (tables-DbValid 3 leased_row (leased_row-RowValid 3 (omega arith))) (omega arith) lease_before
      (leased_row, refl, omega arith) 1000 250 (omega arith, tt) (omega arith) (omega arith)
      (omega arith)

claim_next-validate_example :
    validate_exact_lease hash (lease_for 77 1000 ready_row) (tables leased_row) ≡ ok tt
claim_next-validate_example =
    claim_next-validate hash 0 77 1000 (tables ready_row) (tables leased_row)
      (lease_for 77 1000 ready_row)
      (tables-DbValid 2 ready_row (ready_row-RowValid 2 (omega arith))) owner_not_zero (omega arith)
      claims_ready

stale-validate_example :
    validate_exact_lease hash lease_before (tables leased_row) ≡ err LeaseValidationError.lease_lost
stale-validate_example =
    stale-validate hash 1 (tables leased_row) lease_before
      (tables-DbValid 1 leased_row (leased_row-RowValid 1 (omega arith)))
      (leased_row, refl, omega arith)
