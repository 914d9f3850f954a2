-- ===== src/Jobs/Samples.antt =====
-- Concrete tables of src/reconciliation_job.rs: one ready job, the same job under a lease and at its
-- last attempt, and no job at all. The hash is a small polynomial one.
use rhi.Jobs.Backoff.{PolicyValid}
use rhi.Jobs.Operations.{claim_next, next_claimable, schedule, exhaust_all}
use rhi.Jobs.Claim.{lease_for}
use rhi.Jobs.Valid.{job_of, RowValid, DbValid}
use rhi.Jobs.Store.{Db, DirtyRow, insert_job, update_jobs, among_first, before_by}
use rhi.Jobs.Statements.{claim, fresh_row}
use rhi.Jobs.Schema.{
  Row, column_checks, one_active_per_trade, shape_checks, row_checks, guard_update, allowed_move,
}
use rhi.Jobs.Types.{JobPolicy, Lease, policy_new, lease_owner_from_bytes}
use rhi.Jobs.Decode.{job_id, read_dirty, read_active_job, decode_job, read_job, valid_state_fields}
use rhi.Base.{
  ℕ, refl, [], ◌∷◌, List, ◌*◌, be_bytes, ◌+◌, ◌%◌, ◌≡◌, arith, none, some, true, ok, ◌≢◌, ◌≤◌,
}

abbrev pub hash : List ℕ → ℕ
hash [] = 1
hash (x ∷ xs) = (hash xs * 31 + x) % 65521

abbrev pub usual_policy : JobPolicy
usual_policy = record {
  queue_capacity = 65536;
  lease_duration_ms = 30000;
  lease_renewal_ms = 10000;
  max_attempts = 3;
  initial_backoff_ms = 500;
  maximum_backoff_ms = 60000;
}

abbrev pub ready_row : Row
ready_row =
    fresh_row 50300 3 (record { trade_id = 3; generation = 5; evidence_policy_sha256 = 8 })
      usual_policy 1000

abbrev pub leased_row : Row
leased_row = claim 77 31000 1000 ready_row

abbrev pub last_row : Row
last_row = record leased_row { attempt_count = 3; failure_count = 2 }

abbrev pub tables : Row → Db
tables r = record {
  jobs = r ∷ [];
  dirty = record { trade_id = 3; generation = 5; evidence_policy_sha256 = 8 } ∷ [];
}

abbrev pub lease_on : Row → Lease
lease_on r = record { job = job_of r; owner = 77; lease_expires = 31000 }

id_value : job_id hash 3 5 8 ≡ 50300
unfolding job_id be_bytes
id_value = refl

pub ready_row-RowValid : (room : ℕ) → room ≤ 100 → RowValid hash room ready_row
unfolding column_checks shape_checks
ready_row-RowValid room small = record {
  columns = refl;
  shape = refl;
  identity = id_value;
  roomy = omega arith;
  owned = refl;
  unfailed = λ h. cc;
  within = omega arith;
}

pub last_row-RowValid : (room : ℕ) → room ≤ 100 → RowValid hash room last_row
unfolding column_checks shape_checks
last_row-RowValid room small = record {
  columns = refl;
  shape = refl;
  identity = id_value;
  roomy = omega arith;
  owned = refl;
  unfailed = λ h. omega arith;
  within = omega arith;
}

pub leased_row-RowValid : (room : ℕ) → room ≤ 100 → RowValid hash room leased_row
unfolding column_checks shape_checks
leased_row-RowValid room small = record {
  columns = refl;
  shape = refl;
  identity = id_value;
  roomy = omega arith;
  owned = refl;
  unfailed = λ h. omega arith;
  within = omega arith;
}

pub tables-DbValid : (room : ℕ) (r : Row) → RowValid hash room r → DbValid hash room (tables r)
unfolding one_active_per_trade
tables-DbValid room r v = record { rows = (v, tt); distinct = (refl, tt); single = ground arith }

pub owner_not_zero : ◌≢◌ {A = ℕ} 77 0
owner_not_zero = λ e. omega arith

pub claims_nothing : claim_next hash 77 2000 (tables leased_row) ≡ ok (none, tables leased_row)
unfolding claim_next exhaust_all next_claimable update_jobs among_first before_by
    one_active_per_trade row_checks guard_update
claims_nothing = refl

pub claims_ready :
    claim_next hash 77 1000 (tables ready_row)
    ≡ ok (some (lease_for 77 1000 ready_row), tables leased_row)
unfolding claim_next exhaust_all next_claimable update_jobs among_first before_by
    one_active_per_trade row_checks guard_update decode_job read_job column_checks shape_checks
    allowed_move policy_new lease_owner_from_bytes valid_state_fields job_id be_bytes
claims_ready = refl

abbrev pub lease_before : Lease
lease_before = record { job = job_of ready_row; owner = 5; lease_expires = 900 }

pub usual_policy-PolicyValid : PolicyValid usual_policy
usual_policy-PolicyValid = record {
  capacity = (omega arith, omega arith);
  duration = (omega arith, omega arith);
  renewal = (omega arith, omega arith);
  renewed_early = omega arith;
  attempts = (omega arith, omega arith);
  initial = (omega arith, omega arith);
  maximum = (omega arith, omega arith);
  ordered = omega arith;
}

abbrev pub the_dirty : DirtyRow
the_dirty = record { trade_id = 3; generation = 5; evidence_policy_sha256 = 8 }

pub reads_dirty : (r : Row) → read_dirty 3 (tables r) ≡ ok the_dirty
unfolding read_dirty
reads_dirty r = refl

abbrev pub no_jobs : Db
no_jobs = record { jobs = []; dirty = the_dirty ∷ [] }

pub no_jobs-DbValid : (room : ℕ) → DbValid hash room no_jobs
unfolding one_active_per_trade
no_jobs-DbValid room = record { rows = tt; distinct = tt; single = refl }

pub reads_no_jobs : read_dirty 3 no_jobs ≡ ok the_dirty
unfolding read_dirty
reads_no_jobs = refl

pub schedules_first :
    schedule hash 3 usual_policy 1000 no_jobs
    ≡ ok (record { job = job_of ready_row; created = true }, tables ready_row)
unfolding schedule read_dirty read_active_job insert_job one_active_per_trade row_checks decode_job
    read_job column_checks shape_checks policy_new lease_owner_from_bytes valid_state_fields job_id
    be_bytes
schedules_first = refl
