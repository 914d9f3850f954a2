-- ===== src/Jobs/Steps.antt =====
-- The committed transactions of src/reconciliation_job.rs as steps between tables, with the completion
-- of a job in src/reconciliation_finalization_commit.rs, and what each of them keeps.
use rhi.Jobs.Complete.{complete_job, complete_job-ok}
use rhi.Jobs.Failure.{record_final_failure, record_retried_failure, record_failure_out_of_range}
use rhi.Jobs.Statements.{exhausts, exhausted_by_failure, retries, retried, renews, renewed}
use rhi.Jobs.Renewal.{renew_out_of_range, renew_in_range}
use rhi.Jobs.Swap.{Swapped, updated}
use rhi.Jobs.Schema.{Row}
use rhi.Jobs.Schedule.{schedule-cases, scheduled_db}
use rhi.Jobs.Claim.{claim_next-cases, swept}
use rhi.Jobs.Decode.{read_dirty, i64_value}
use rhi.Jobs.Backoff.{PolicyValid}
use rhi.Jobs.Operations.{record_failure, schedule, renew, claim_next, same_identity}
use rhi.Jobs.History.{Extends, Extends-refl, AllSucceed-Extends}
use rhi.Jobs.Tables.{keeps_rooms, NotBefore, Succeeds-refl}
use rhi.Jobs.Valid.{DbValid, job_of}
use rhi.Jobs.Types.{JobPolicy, Lease, ScheduleOutcome, Job, max_lease_ms}
use rhi.Jobs.Store.{Db, DirtyRow}
use rhi.Base.{
  ℕ, none, some, inl, inr, ok, suc, List, Option, ◌≢◌, ◌+◌, ◌≡◌, ◌≤◌, max_i64, and_then-ok, subst,
  ok-injective, sym, ◌∙◌, true, Bool-cases, ltb, Bool, arith, ◌&&◌, leb, err_ne_ok, ◌<◌, le_or_lt,
}

-- A step is a transaction that returned a value. The clock of `schedule` and `record_failure` is not
-- behind the tables; other code may change the dirty generations at any time.
pub data Step (sha256 : List ℕ → ℕ) : Db → Db → Type 0 where
  scheduled :
      {db db' : Db} (trade_id : ℕ) (policy : JobPolicy) (now : ℕ) (outcome : ScheduleOutcome)
      → PolicyValid policy
      → NotBefore now db.jobs
      → now ≤ max_i64
      → schedule sha256 trade_id policy now db ≡ ok (outcome, db')
      → Step sha256 db db'
  claimed_one :
      {db db' : Db} (owner now : ℕ) (lease : Lease)
      → owner ≢ 0
      → now + max_lease_ms ≤ max_i64
      → claim_next sha256 owner now db ≡ ok (some lease, db')
      → Step sha256 db db'
  claimed_none :
      {db db' : Db} (owner now : ℕ)
      → owner ≢ 0
      → now + max_lease_ms ≤ max_i64
      → claim_next sha256 owner now db ≡ ok (none, db')
      → Step sha256 db db'
  renewed_one :
      {db db' : Db} (lease lease' : Lease) (now : ℕ)
      → renew sha256 lease now db ≡ ok (lease', db')
      → Step sha256 db db'
  failed_one :
      {db db' : Db} (lease : Lease) (now delay : ℕ) (job : Job)
      → NotBefore now db.jobs
      → record_failure sha256 lease now delay db ≡ ok (job, db')
      → Step sha256 db db'
  completed_one :
      {db db' : Db} (id : ℕ) (lease : Lease) (now : ℕ)
      → complete_job id lease now db ≡ ok db'
      → Step sha256 db db'
  dirtied : {db : Db} (rows : List DirtyRow) → Step sha256 db (record db { dirty = rows })

in_range :
    (previous t : ℕ) → (ltb previous t && leb t max_i64) ≡ true → (previous < t) × (t ≤ max_i64)
in_range previous t h = (ground arith, ground arith)

i64_value-ok : (t : ℕ) {n : ℕ} → i64_value t ≡ ok n → t ≤ max_i64
i64_value-ok t h = ground arith

weaken_room :
    (sha256 : List ℕ → ℕ) (room : ℕ) (db : Db)
    → DbValid sha256 (suc room) db
    → DbValid sha256 room db
weaken_room sha256 room db v = record {
  rows = keeps_rooms sha256 room db.jobs v.rows;
  distinct = v.distinct;
  single = v.single;
}

-- What a step keeps, with room for `room` revisions after it.
abbrev pub Keeps : (List ℕ → ℕ) → ℕ → Db → Db → Type 0
Keeps sha256 room db db' = DbValid sha256 room db' × Extends db db'

module _ (sha256 : List ℕ → ℕ) (room : ℕ) (db : Db) (v : DbValid sha256 (suc (suc room)) db) where
  still : Keeps sha256 room db db
  still = (weaken_room sha256 room db (weaken_room sha256 (suc room) db v), Extends-refl db)

  one_less : (db' : Db) → Keeps sha256 (suc room) db db' → Keeps sha256 room db db'
  one_less db' k = (weaken_room sha256 room db' k.0, k.1)

  schedule-Keeps :
      (trade_id now : ℕ) (policy : JobPolicy) (outcome : ScheduleOutcome) (db' : Db)
      → PolicyValid policy
      → NotBefore now db.jobs
      → now ≤ max_i64
      → 2 + room ≤ max_i64
      → schedule sha256 trade_id policy now db ≡ ok (outcome, db')
      → Keeps sha256 room db db'
  unfolding schedule
  schedule-Keeps trade_id now policy outcome db' usual late small roomy e =
      let (dirty, read, _) = and_then-ok (read_dirty trade_id db) e in
      elim (schedule-cases sha256 (suc room) trade_id now policy dirty db v late small (omega arith)
        usual read) [
          | inl (r, found, e') ↦
              elim (Bool-cases (same_identity sha256 (job_of r) trade_id dirty)) [
                | inl same ↦ subst Kept (ok-injective (sym (rw same at e') ∙ e)) still
                | inr other ↦ absurd (err_ne_ok (sym (rw other at e') ∙ e))
              ]
          | inr (inl (inl (e', _))) ↦ absurd (err_ne_ok (sym e' ∙ e))
          | inr (inl (inr (e', _))) ↦ absurd (err_ne_ok (sym e' ∙ e))
          | inr (inr (e', _, valid, extends, _, _)) ↦ subst Kept (ok-injective (sym e' ∙ e)) (
              one_less (scheduled_db sha256 (suc room) trade_id now policy dirty db)
                (valid, extends))
        ]
    where
      Kept : ScheduleOutcome × Db → Type 0
      Kept out = Keeps sha256 room db out.1

  claim_next-Keeps :
      (owner now : ℕ) (claimed_lease : Option Lease) (db' : Db)
      → owner ≢ 0
      → now + max_lease_ms ≤ max_i64
      → claim_next sha256 owner now db ≡ ok (claimed_lease, db')
      → Keeps sha256 room db db'
  claim_next-Keeps owner now claimed_lease db' owned fits e =
      elim (claim_next-cases sha256 room owner now owned db v fits) [
        | inl (_, e', valid, extends) ↦
            subst Kept (ok-injective (sym e' ∙ e)) (one_less (swept now db) (valid, extends))
        | inr (_, _, _, e', valid, _, _, extends) ↦
            subst Kept (ok-injective (sym e' ∙ e)) (valid, extends)
      ]
    where
      Kept : Option Lease × Db → Type 0
      Kept out = Keeps sha256 room db out.1

  renew-Keeps :
      (lease lease' : Lease) (now : ℕ) (db' : Db)
      → renew sha256 lease now db ≡ ok (lease', db')
      → Keeps sha256 room db db'
  renew-Keeps lease lease' now db' e =
      elim (Bool-cases (
        ltb lease.lease_expires (now + lease.job.policy.lease_duration_ms)
        && leb (now + lease.job.policy.lease_duration_ms) max_i64)) [
          | inr out ↦
              absurd (err_ne_ok (sym (renew_out_of_range sha256 (suc room) db v lease now out) ∙ e))
          | inl inside ↦
              let (longer, fits) =
                in_range lease.lease_expires (now + lease.job.policy.lease_duration_ms) inside in
              elim (renew_in_range sha256 (suc room) db v lease now (omega arith) longer fits) [
                | inl (lost, _) ↦ absurd (err_ne_ok (sym lost ∙ e))
                | inr (r, _, e', valid, moved) ↦ subst Kept (ok-injective (sym e' ∙ e)) (
                    one_less
                      (updated (renews lease now)
                        (renewed (now + lease.job.policy.lease_duration_ms) now) db)
                      (
                        valid,
                        AllSucceed-Extends db
                            (updated (renews lease now)
                              (renewed (now + lease.job.policy.lease_duration_ms) now) db)
                            moved,
                      ))
              ]
        ]
    where
      Kept : Lease × Db → Type 0
      Kept out = Keeps sha256 room db out.1

  record_failure-Keeps :
      (lease : Lease) (now delay : ℕ) (job : Job) (db' : Db)
      → NotBefore now db.jobs
      → record_failure sha256 lease now delay db ≡ ok (job, db')
      → Keeps sha256 room db db'
  unfolding record_failure
  record_failure-Keeps lease now delay job db' late e =
      let (_, is_time, _) = and_then-ok (i64_value now) e in
      let small = i64_value-ok now is_time in
      elim (le_or_lt lease.job.policy.max_attempts lease.job.attempt_count) [
        | inl last ↦
            swapped (exhausts lease now) (exhausted_by_failure now)
              (record_final_failure sha256 (suc room) db v lease now delay small late last)
        | inr more ↦ elim (le_or_lt (now + delay) max_i64) [
          | inl fits ↦
              swapped (retries lease now) (retried (now + delay) now)
                (record_retried_failure sha256 (suc room) db v lease now delay fits late more)
          | inr out ↦ absurd (
              err_ne_ok (
                sym (
                  record_failure_out_of_range sha256 (suc room) db v lease now delay small more out)
                ∙ e))
        ]
      ]
    where
      Kept : Job × Db → Type 0
      Kept out = Keeps sha256 room db out.1

      swapped :
          (p : Row → Bool) (f : Row → Row)
          → Swapped sha256 (suc room) db v lease p f (record_failure sha256 lease now delay db)
          → Keeps sha256 room db db'
      swapped p f (inl (lost, _)) = absurd (err_ne_ok (sym lost ∙ e))
      swapped p f (inr (r, _, e', valid, moved)) =
          subst Kept (ok-injective (sym e' ∙ e))
            (one_less (updated p f db) (valid, AllSucceed-Extends db (updated p f db) moved))

-- A step keeps the tables well formed, at the cost of two revisions of room, and loses no job.
pub Step-Keeps :
    (sha256 : List ℕ → ℕ) (room : ℕ) {db db' : Db}
    → DbValid sha256 (suc (suc room)) db
    → 2 + room ≤ max_i64
    → Step sha256 db db'
    → Keeps sha256 room db db'
Step-Keeps sha256 room v roomy
      (scheduled {db} {db'} trade_id policy now outcome usual late small e) =
    schedule-Keeps sha256 room db v trade_id now policy outcome db' usual late small roomy e
Step-Keeps sha256 room v roomy (claimed_one {db} {db'} owner now lease owned fits e) =
    claim_next-Keeps sha256 room db v owner now (some lease) db' owned fits e
Step-Keeps sha256 room v roomy (claimed_none {db} {db'} owner now owned fits e) =
    claim_next-Keeps sha256 room db v owner now none db' owned fits e
Step-Keeps sha256 room v roomy (renewed_one {db} {db'} lease lease' now e) =
    renew-Keeps sha256 room db v lease lease' now db' e
Step-Keeps sha256 room v roomy (failed_one {db} {db'} lease now delay job late e) =
    record_failure-Keeps sha256 room db v lease now delay job db' late e
Step-Keeps sha256 room v roomy (completed_one {db} {db'} id lease now e) =
    let (valid, extends) = complete_job-ok sha256 (suc room) id lease now db db' v e in
    (weaken_room sha256 room db' valid, extends)
Step-Keeps sha256 room v roomy (dirtied {db} rows) =
    let w = weaken_room sha256 room db (weaken_room sha256 (suc room) db v) in
    (
      record { rows = w.rows; distinct = w.distinct; single = w.single },
      λ id r found. (r, found, Succeeds-refl r),
    )
