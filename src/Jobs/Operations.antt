-- ===== src/Jobs/Operations.antt =====
-- The transactions `schedule`, `claim_next`, `renew` and `record_failure` of
-- src/reconciliation_job.rs, step by step. An error carries no tables:
-- the transaction is rolled back.
use rhi.Base.{
  ℕ, ◌+◌, Bool, true, false, ◌&&◌, Option, none, some, List, ok, err, ◌>>=◌, ◌>>◌, refuse, ok_or,
  ltb, leb, ◌==◌, checked, keep, max_i64, count, least, filter, if◌then◌else◌,
}
use rhi.Jobs.Types.{
  invalid_input, queue_full, dirty_generation_conflict, lease_lost, not_ready, storage, Job,
  JobPolicy, Lease, ScheduleOutcome,
}
use rhi.Jobs.Schema.{Row, is_active}
use rhi.Jobs.Store.{Db, DirtyRow, OpResult, update_jobs, insert_job, before_by, among_first}
use rhi.Jobs.Decode.{i64_value, job_id, decode_job, read_job, read_active_job, read_dirty}
use rhi.Jobs.Statements.{
  supersedes, supersede, fresh_row, spent, exhaust_expired, expiry, claimable, claim_key, claims,
  claim, renews, renewed, retries, retried, exhausts, exhausted_by_failure, one_row, leased_only,
}

-- EXHAUST_EXPIRED_SQL, with its `LIMIT 65536`.
unfoldable pub exhaust_all : ℕ → Db → OpResult (ℕ × Db)
unfolding update_jobs among_first before_by
exhaust_all now db =
    update_jobs (among_first 65536 (spent now) (before_by expiry) db.jobs) (exhaust_expired now) db

-- READ_CLAIMABLE_SQL.
unfoldable pub next_claimable : ℕ → Db → Option Row
unfolding before_by
next_claimable now db = least (before_by claim_key) (filter (claimable now) db.jobs)

-- `now.checked_add(duration)` held to the greatest time.
abbrev pub time_after : ℕ → ℕ → Option ℕ
time_after now duration = keep (λ t. leb t max_i64) (checked (now + duration))

module _ (sha256 : List ℕ → ℕ) where
  abbrev pub same_identity : Job → ℕ → DirtyRow → Bool
  same_identity job trade_id dirty =
      job.trade_id == trade_id
      && job.input_generation == dirty.generation
      && job.policy_digest == dirty.evidence_policy_sha256

  abbrev pub supersede_active : Option Job → DirtyRow → ℕ → Db → OpResult Db
  supersede_active none dirty now db = ok db
  supersede_active (some active) dirty now db = do
    refuse (leb dirty.generation active.input_generation) dirty_generation_conflict
    at ← i64_value now
    changed ← update_jobs (supersedes active.id active.revision) (supersede at) db
    one_row changed dirty_generation_conflict

  abbrev pub create_job : ℕ → ℕ → DirtyRow → JobPolicy → ℕ → Db → OpResult (ScheduleOutcome × Db)
  create_job id trade_id dirty policy now db = do
    active ← read_active_job sha256 trade_id db
    db' ← supersede_active active dirty now db
    refuse (leb policy.queue_capacity (count (λ r. is_active r.state) db'.jobs)) queue_full
    at ← i64_value now
    inserted ← insert_job (fresh_row id trade_id dirty policy at) db'
    db'' ← one_row inserted storage
    found ← read_job sha256 id db''
    job ← ok_or found storage
    ok (record { job = job; created = true }, db'')

  abbrev pub schedule_found :
      Option Job → ℕ → ℕ → DirtyRow → JobPolicy → ℕ → Db → OpResult (ScheduleOutcome × Db)
  schedule_found (some job) id trade_id dirty policy now db =
      if same_identity job trade_id dirty
      then ok (record { job = job; created = false }, db)
      else err storage
  schedule_found none id trade_id dirty policy now db = create_job id trade_id dirty policy now db

  unfoldable pub schedule : ℕ → JobPolicy → ℕ → Db → OpResult (ScheduleOutcome × Db)
  unfolding job_id
  schedule trade_id policy now db = do
    dirty ← read_dirty trade_id db
    let id = job_id sha256 trade_id dirty.generation dirty.evidence_policy_sha256
    found ← read_job sha256 id db
    schedule_found found id trade_id dirty policy now db

  -- A leased job read back after a compare-and-swap, as the lease that its caller holds.
  abbrev pub lease_of : ℕ → ℕ → Db → OpResult Lease
  lease_of id owner db = do
    found ← read_job sha256 id db
    job ← ok_or (leased_only found) storage
    expires ← ok_or job.lease_expires storage
    ok (record { job = job; owner = owner; lease_expires = expires })

  abbrev pub claim_row : Option Row → ℕ → ℕ → Db → OpResult (Option Lease × Db)
  claim_row none owner now db = ok (none, db)
  claim_row (some row) owner now db = do
    candidate ← decode_job sha256 row
    expires ← ok_or (time_after now candidate.policy.lease_duration_ms) invalid_input
    changed ← update_jobs (claims candidate.id candidate.revision now) (claim owner expires now) db
    db' ← one_row changed lease_lost
    lease ← lease_of candidate.id owner db'
    ok (some lease, db')

  unfoldable pub claim_next : ℕ → ℕ → Db → OpResult (Option Lease × Db)
  claim_next owner now db = do
    at ← i64_value now
    exhausted ← exhaust_all at db
    claim_row (next_claimable at exhausted.1) owner at exhausted.1

  unfoldable pub renew : Lease → ℕ → Db → OpResult (Lease × Db)
  renew lease now db = do
    expires ←
        ok_or
          (keep (λ t. ltb lease.lease_expires t && leb t max_i64)
            (checked (now + lease.job.policy.lease_duration_ms)))
          not_ready
    at ← i64_value now
    changed ← update_jobs (renews lease at) (renewed expires at) db
    db' ← one_row changed lease_lost
    lease' ← lease_of lease.job.id lease.owner db'
    ok (lease', db')

  abbrev fail_lease : Lease → ℕ → ℕ → Db → OpResult (ℕ × Db)
  fail_lease lease now delay db =
      let retry : OpResult (ℕ × Db) = (do
        next ← ok_or (time_after now delay) invalid_input
        update_jobs (retries lease now) (retried next now) db) in
      if leb lease.job.policy.max_attempts lease.job.attempt_count
      then update_jobs (exhausts lease now) (exhausted_by_failure now) db
      else retry

  unfoldable pub record_failure : Lease → ℕ → ℕ → Db → OpResult (Job × Db)
  record_failure lease now delay db = do
    at ← i64_value now
    changed ← fail_lease lease at delay db
    db' ← one_row changed lease_lost
    found ← read_job sha256 lease.job.id db'
    job ← ok_or found storage
    ok (job, db')
