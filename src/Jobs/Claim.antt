-- ===== src/Jobs/Claim.antt =====
-- `claim_next` of src/reconciliation_job.rs on well-formed tables.
use mathlib.Core.Option.{some-injective}
use rhi.Jobs.Target.{row_of, hits, read_job-DbValid}
use rhi.Jobs.Choice.{Among, Among-row_of, Among-filter, least-first, Among-RowValid}
use rhi.Jobs.Rows.{exhaust_expired-fits, claim-fits}
use rhi.Jobs.Tables.{update_jobs-StatementFits, RowsFit-of}
use rhi.Jobs.History.{Extends, AllSucceed-Extends, Extends-trans}
use rhi.Jobs.Types.{Lease, max_lease_ms}
use rhi.Jobs.Valid.{DbValid, job_of, RowValid, decode-RowValid}
use rhi.Jobs.Statements.{claim, spent, claims, expiry, exhaust_expired, claimable, claim_key}
use rhi.Jobs.Schema.{Row, column_checks}
use rhi.Jobs.Operations.{exhaust_all, claim_row, claim_next, next_claimable}
use rhi.Jobs.Swap.{updated, swap_cases, time_after-le, i64_value-le}
use rhi.Jobs.Store.{Db, among_first, before_by}
use rhi.Base.{
  ℕ, ok, suc, List, ◌≢◌, ◌+◌, ◌≤◌, max_i64, ◌≡◌, count, &&-left, some, true, inl, inr, refl, arith,
  ==_self, none, sym, ◌∙◌, ◌⊎◌, ap, Option-cases, filter,
}

-- The tables once the expired leases of spent jobs are closed.
abbrev pub swept : ℕ → Db → Db
swept now db =
    updated (among_first 65536 (spent now) (before_by expiry) db.jobs) (exhaust_expired now) db

module _ (sha256 : List ℕ → ℕ) (room : ℕ) (now : ℕ) where
  pub exhaust_all-DbValid :
      (db : Db)
      → DbValid sha256 (suc room) db
      → now ≤ max_i64
      → (exhaust_all now db
          ≡ ok (
            count (among_first 65536 (spent now) (before_by expiry) db.jobs) db.jobs,
            swept now db,
          ))
        × DbValid sha256 room (swept now db)
        × Extends db (swept now db)
  unfolding exhaust_all
  exhaust_all-DbValid db v small =
      let p = among_first 65536 (spent now) (before_by expiry) db.jobs in
      let done = update_jobs-StatementFits sha256 room p (exhaust_expired now) db v (
        RowsFit-of sha256 room p (exhaust_expired now) db.jobs v.rows
          (λ r w h. exhaust_expired-fits sha256 room p now r w (&&-left _ _ h) small)) in
      (done.0, done.1, AllSucceed-Extends db (swept now db) done.2)

module _ (owner now : ℕ) where
  abbrev pub claimed : Row → Row
  claimed r = claim owner (now + r.lease_duration_ms) now r

  abbrev pub lease_for : Row → Lease
  lease_for r = record {
    job = job_of (claimed r);
    owner = owner;
    lease_expires = now + r.lease_duration_ms;
  }

  abbrev pub claimed_db : Row → Db → Db
  claimed_db r =
      updated (claims r.job_id r.revision now) (claim owner (now + r.lease_duration_ms) now)

-- What `claim_next` gives: nothing to claim, or a lease on the first claimable row.
abbrev pub ClaimOutcome : (List ℕ → ℕ) → ℕ → ℕ → ℕ → Db → Type 0
ClaimOutcome sha256 room owner now db =
    ((next_claimable now (swept now db) ≡ none)
      × (claim_next sha256 owner now db ≡ ok (none, swept now db))
      × DbValid sha256 (suc room) (swept now db)
      × Extends db (swept now db))
    ⊎ ((r : Row) × (next_claimable now (swept now db) ≡ some r)
        × (row_of r.job_id (swept now db).jobs ≡ some r)
        × (claim_next sha256 owner now db
            ≡ ok (some (lease_for owner now r), claimed_db owner now r (swept now db)))
        × DbValid sha256 room (claimed_db owner now r (swept now db))
        × Extends db (swept now db)
        × (row_of r.job_id (claimed_db owner now r (swept now db)).jobs
            ≡ some (claimed owner now r))
        × Extends db (claimed_db owner now r (swept now db)))

module _ (sha256 : List ℕ → ℕ) (room : ℕ) (owner now : ℕ) (owned : owner ≢ 0) where
  duration_pos :
      (k : ℕ) (r : Row)
      → RowValid sha256 k r
      → (1 ≤ r.lease_duration_ms) × (r.lease_duration_ms ≤ max_lease_ms)
  unfolding column_checks
  duration_pos k r w = (ground (arith, w.columns), ground (arith, w.columns))

  claimable_of_claims :
      (id revision : ℕ) (r : Row) → claims id revision now r ≡ true → claimable now r ≡ true
  claimable_of_claims id revision r h = ground arith

  next_claimable-some :
      (db : Db) (r : Row)
      → next_claimable now db ≡ some r
      → Among r db.jobs × (claimable now r ≡ true)
  unfolding next_claimable
  next_claimable-some db r e =
      Among-filter (claimable now) r db.jobs
        (least-first claim_key (filter (claimable now) db.jobs) r e).0

  -- A claimable row of the table is claimed.
  claim_row-claimable :
      (db : Db) (r : Row)
      → DbValid sha256 (suc room) db
      → Among r db.jobs
      → claimable now r ≡ true
      → now + max_lease_ms ≤ max_i64
      → (claim_row sha256 (some r) owner now db
          ≡ ok (some (lease_for owner now r), claimed_db owner now r db))
        × DbValid sha256 room (claimed_db owner now r db)
        × Extends db (claimed_db owner now r db)
        × (row_of r.job_id (claimed_db owner now r db).jobs ≡ some (claimed owner now r))
  claim_row-claimable db r v member open_now fits =
      let valid_row = Among-RowValid sha256 (suc room) db.jobs r v.rows member in
      let duration = duration_pos (suc room) r valid_row in
      let late : now + r.lease_duration_ms ≤ max_i64 = omega arith in
      let found = Among-row_of r db.jobs v.distinct member in
      let taken : claims r.job_id r.revision now r ≡ true =
        rw (==_self r.job_id, ==_self r.revision) open_now in
      elim (swap_cases sha256 room db v r.job_id (claims r.job_id r.revision now)
        (claim owner (now + r.lease_duration_ms) now) (λ s h. ground arith) (λ s. refl)
        (RowsFit-of sha256 room _ _ db.jobs v.rows λ s w h.
          claim-fits sha256 room _ owner (now + r.lease_duration_ms) now s w
            (claimable_of_claims r.job_id r.revision s h) owned (omega arith) late (omega arith))) [
              | inl (e, lost) ↦
                  let one : hits (claims r.job_id r.revision now) (row_of r.job_id db.jobs) ≡ 1 =
                    rw found (rw taken) in
                  absurd (omega arith)
              | inr (s, found_s, hit, e, valid, read, moved) ↦
                  let same : s ≡ r = some-injective _ _ (sym found_s ∙ found) in
                  let read_r : row_of r.job_id (claimed_db owner now r db).jobs
                      ≡ some (claimed owner now r) =
                    read ∙ ap (λ z. some (claim owner (now + r.lease_duration_ms) now z)) same in
                  (
                    rw (
                      decode-RowValid sha256 r valid_row,
                      time_after-le now r.lease_duration_ms late,
                      e,
                      read_job-DbValid sha256 room r.job_id _ valid,
                      read_r,
                    ),
                    valid,
                    AllSucceed-Extends db (claimed_db owner now r db) moved,
                    read_r,
                  )
            ]

  -- On well-formed tables with room for two more revisions, a nonzero owner and a time at least
  -- one longest lease before the end of the range, `claim_next` never fails. Expired leases of
  -- spent jobs are closed first; then, if no job is claimable, it returns none, and otherwise it
  -- leases the first claimable row to the owner until that row's lease duration after the time.
  -- The new tables are well formed, and no job is lost or set back.
  pub claim_next-cases :
      (db : Db)
      → DbValid sha256 (suc (suc room)) db
      → now + max_lease_ms ≤ max_i64
      → ClaimOutcome sha256 room owner now db
  unfolding claim_next
  claim_next-cases db v fits =
      let small : now ≤ max_i64 = omega arith in
      let (sweeps, valid, extends) = exhaust_all-DbValid sha256 (suc room) now db v small in
      elim (Option-cases (next_claimable now (swept now db))) [
        | inl idle ↦ inl (idle, rw (i64_value-le now small, sweeps, idle), valid, extends)
        | inr (r, chosen) ↦
            let (member, open_now) = next_claimable-some (swept now db) r chosen in
            let (won, valid', extends', read) =
              claim_row-claimable (swept now db) r valid member open_now fits in
            inr (
              r,
              chosen,
              Among-row_of r (swept now db).jobs valid.distinct member,
              rw (i64_value-le now small, sweeps, chosen) won,
              valid',
              extends,
              read,
              Extends-trans db (swept now db) (claimed_db owner now r (swept now db)) extends
                  extends',
            )
      ]
