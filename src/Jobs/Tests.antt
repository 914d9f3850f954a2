-- ===== src/Jobs/Tests.antt =====
-- The theorems on leases and policies at the sample tables.
use rhi.Jobs.Drain.{Claims, claim_next-drains}
use rhi.Jobs.Store.{Db, before_by}
use rhi.Jobs.Samples.{
  hash, lease_before, ready_row, tables, usual_policy, last_row, leased_row, owner_not_zero,
  usual_policy-PolicyValid, tables-DbValid, last_row-RowValid, leased_row-RowValid,
  ready_row-RowValid, claims_nothing, claims_ready, lease_on,
}
use rhi.Jobs.Order.{Earliest, next_claimable-Earliest}
use rhi.Jobs.History.{Extends}
use rhi.Jobs.Backoff.{
  PolicyValid, policy_again, retry_delay_upper_bound-doubled, policy_new-PolicyValid,
}
use rhi.Jobs.Target.{row_of}
use rhi.Jobs.Operations.{next_claimable, record_failure, claim_next}
use rhi.Jobs.Claim.{ClaimOutcome, claim_next-cases, lease_for, swept}
use rhi.Jobs.Renewal.{Renewed, renew_in_range}
use rhi.Jobs.Leases.{claim_next-keeps_live, IsStale, claim-IsStale}
use rhi.Jobs.Failure.{record_final_failure, record_retried_failure}
use rhi.Jobs.Swap.{Swapped}
use rhi.Jobs.Statements.{exhausts, retries, exhausted_by_failure, retried}
use rhi.Jobs.Types.{retry_delay_upper_bound, invalid_input}
use rhi.Base.{refl, [], ◌∷◌, ◌≡◌, arith, none, some, ok, err, ◌⊎◌}

claim_next-cases_example : ClaimOutcome hash 0 77 1000 (tables ready_row)
claim_next-cases_example =
    claim_next-cases hash 0 77 1000 owner_not_zero (tables ready_row)
      (tables-DbValid 2 ready_row (ready_row-RowValid 2 (omega arith))) (omega arith)

claim_next-keeps_live_example : row_of 50300 (tables leased_row).jobs ≡ some leased_row
claim_next-keeps_live_example =
    claim_next-keeps_live hash 0 (tables leased_row)
      (tables-DbValid 2 leased_row (leased_row-RowValid 2 (omega arith))) 77 2000 owner_not_zero
      (omega arith) 50300 leased_row refl (31000, refl, omega arith, refl) (none, tables leased_row)
      claims_nothing

claim-IsStale_example :
    IsStale lease_before (tables leased_row) × Extends (tables ready_row) (tables leased_row)
claim-IsStale_example =
    claim-IsStale hash 0 (tables ready_row) 77 1000
      (tables-DbValid 2 ready_row (ready_row-RowValid 2 (omega arith))) owner_not_zero (omega arith)
      lease_before ready_row refl (omega arith) (lease_for 77 1000 ready_row) (tables leased_row)
      claims_ready refl

renew_in_range_example :
    Renewed hash 1
      (tables leased_row)
      (tables-DbValid 2 leased_row (leased_row-RowValid 2 (omega arith)))
      (lease_on leased_row)
      21000
renew_in_range_example =
    renew_in_range hash 1 (tables leased_row)
      (tables-DbValid 2 leased_row (leased_row-RowValid 2 (omega arith))) (lease_on leased_row)
      21000 (omega arith) (omega arith) (omega arith)

record_retried_failure_example :
    Swapped hash 1
      (tables leased_row)
      (tables-DbValid 2 leased_row (leased_row-RowValid 2 (omega arith)))
      (lease_on leased_row)
      (retries (lease_on leased_row) 21000)
      (retried 21250 21000)
      (record_failure hash (lease_on leased_row) 21000 250 (tables leased_row))
record_retried_failure_example =
    record_retried_failure hash 1 (tables leased_row)
      (tables-DbValid 2 leased_row (leased_row-RowValid 2 (omega arith))) (lease_on leased_row)
      21000 250 (omega arith) (omega arith, tt) (omega arith)

record_final_failure_example :
    Swapped hash 1
      (tables last_row)
      (tables-DbValid 2 last_row (last_row-RowValid 2 (omega arith)))
      (lease_on last_row)
      (exhausts (lease_on last_row) 21000)
      (exhausted_by_failure 21000)
      (record_failure hash (lease_on last_row) 21000 250 (tables last_row))
record_final_failure_example =
    record_final_failure hash 1 (tables last_row)
      (tables-DbValid 2 last_row (last_row-RowValid 2 (omega arith))) (lease_on last_row) 21000 250
      (omega arith) (omega arith, tt) (omega arith)

policy_new-PolicyValid_example :
    ((policy_again usual_policy ≡ ok usual_policy) × PolicyValid usual_policy)
    ⊎ ((policy_again usual_policy ≡ err invalid_input) × ¬ PolicyValid usual_policy)
policy_new-PolicyValid_example = policy_new-PolicyValid usual_policy

retry_delay_upper_bound-doubled_example : retry_delay_upper_bound usual_policy 4 ≡ 8000
retry_delay_upper_bound-doubled_example =
    retry_delay_upper_bound-doubled usual_policy 4 usual_policy-PolicyValid

-- A ready job that is due later, a lease that is over, a ready job of a later time, and a spent one.
abbrev several : Db
several = record {
  jobs =
      record ready_row { job_id = 9; next_attempt_unix_ms = some 31500 }
      ∷ leased_row
      ∷ record ready_row { job_id = 12; next_attempt_unix_ms = some 33000 }
      ∷ record last_row { job_id = 2; lease_expires_unix_ms = some 5000 }
      ∷ [];
  dirty = [];
}

takes_the_lease : next_claimable 32000 several ≡ some leased_row
unfolding next_claimable before_by
takes_the_lease = refl

next_claimable-Earliest_example : Earliest 32000 several
next_claimable-Earliest_example = next_claimable-Earliest 32000 several

claim_next-drains_example :
    (db' : Db) × Claims 1000 hash 77 1 (tables ready_row) db'
    × (claim_next hash 77 1000 db' ≡ ok (none, swept 1000 db'))
claim_next-drains_example =
    claim_next-drains 1000 hash 77 (tables ready_row)
      (tables-DbValid 4 ready_row (ready_row-RowValid 4 (omega arith))) owner_not_zero (omega arith)
