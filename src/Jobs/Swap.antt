-- ===== src/Jobs/Swap.antt =====
-- A compare-and-swap of src/reconciliation_job.rs on one job of well-formed tables.
use rhi.Jobs.Decode.{i64_value}
use rhi.Jobs.Statements.{holds, is_leased}
use rhi.Jobs.Operations.{time_after}
use rhi.Jobs.Types.{Lease, lease_lost, Job}
use rhi.Jobs.Target.{hits, row_of, count-row_of, row_of-update_where, changed_row}
use rhi.Jobs.Tables.{AllSucceed, update_jobs-StatementFits, RowsFit}
use rhi.Jobs.Valid.{DbValid, job_of}
use rhi.Jobs.Store.{Db, update_jobs, OpResult}
use rhi.Jobs.Schema.{Row}
use rhi.Base.{
  ℕ, some, true, inl, inr, ok, suc, List, Bool, update_where, ◌≡◌, ◌⊎◌, Option-cases, Bool-cases,
  ◌∙◌, ap, err, ◌≤◌, max_i64, ◌<◌, ◌+◌, arith, keep, ltb, ◌&&◌, leb, checked, false,
}

-- The tables after an UPDATE.
abbrev pub updated : (Row → Bool) → (Row → Row) → Db → Db
updated p f db = record db { jobs = update_where p f db.jobs }

pub is_leased_of_holds :
    (lease : Lease) (now : ℕ) (r : Row) → holds lease now r ≡ true → is_leased r.state ≡ true
is_leased_of_holds lease now r h = ground arith

pub time-keep :
    (previous t : ℕ)
    → previous < t
    → t ≤ max_i64
    → keep (λ t. ltb previous t && leb t max_i64) (checked t) ≡ some t
time-keep previous t longer fits = ground arith

pub time_after-le :
    (now duration : ℕ) → now + duration ≤ max_i64 → time_after now duration ≡ some (now + duration)
time_after-le now duration fits = ground arith

pub lt→leb : (a b : ℕ) → a < b → leb b a ≡ false
lt→leb a b h = ground arith

pub i64_value-le : (t : ℕ) → t ≤ max_i64 → i64_value t ≡ ok t
i64_value-le t h = ground arith

module _ (sha256 : List ℕ → ℕ) (room : ℕ) (db : Db) (v : DbValid sha256 (suc room) db) where
  -- A compare-and-swap on one job either changes its row, and the tables stay well formed, or takes
  -- no row.
  pub swap_cases :
      (id : ℕ) (p : Row → Bool) (f : Row → Row)
      → ((r : Row) → p r ≡ true → r.job_id ≡ id)
      → ((r : Row) → (f r).job_id ≡ r.job_id)
      → RowsFit sha256 room p f db.jobs
      → ((update_jobs p f db ≡ ok (0, updated p f db)) × (hits p (row_of id db.jobs) ≡ 0))
        ⊎ ((r : Row) × (row_of id db.jobs ≡ some r)
            × (p r ≡ true)
            × (update_jobs p f db ≡ ok (1, updated p f db))
            × DbValid sha256 room (updated p f db)
            × (row_of id (updated p f db).jobs ≡ some (f r))
            × AllSucceed db.jobs (updated p f db).jobs)
  swap_cases id p f targets same fits =
      let done = update_jobs-StatementFits sha256 room p f db v fits in
      let number = count-row_of id p targets db.jobs v.distinct in
      let after = row_of-update_where id p targets f same db.jobs in
      let total : (n : ℕ)
          → hits p (row_of id db.jobs) ≡ n
          → update_jobs p f db ≡ ok (n, updated p f db) =
        λ n e. done.0 ∙ ap (λ k. ok (k, updated p f db)) (number ∙ e) in
      elim (Option-cases (row_of id db.jobs)) [
        | inl missing ↦
            let no_hit : hits p (row_of id db.jobs) ≡ 0 = rw missing in inl (total 0 no_hit, no_hit)
        | inr (r, found) ↦ elim (Bool-cases (p r)) [
          | inl hit ↦ inr (
            r,
            found,
            hit,
            total 1 (rw found (rw hit)),
            done.1,
            after ∙ ap (changed_row p f) found ∙ (rw hit),
            done.2,
          )
          | inr miss ↦
              let no_hit : hits p (row_of id db.jobs) ≡ 0 = rw found (rw miss) in
              inl (total 0 no_hit, no_hit)
        ]
      ]

  abbrev pub Found : Lease → (Row → Bool) → Row → Type 0
  Found lease p r = (row_of lease.job.id db.jobs ≡ some r) × (p r ≡ true)

  -- What a compare-and-swap does with the job's row: nothing, or the write.
  abbrev pub Swapped : Lease → (Row → Bool) → (Row → Row) → OpResult (Job × Db) → Type 0
  Swapped lease p f result =
      ((result ≡ err lease_lost) × (hits p (row_of lease.job.id db.jobs) ≡ 0))
      ⊎ ((r : Row) × Found lease p r
          × (result ≡ ok (job_of (f r), updated p f db))
          × DbValid sha256 room (updated p f db)
          × AllSucceed db.jobs (updated p f db).jobs)
