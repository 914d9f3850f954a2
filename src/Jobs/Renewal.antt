-- ===== src/Jobs/Renewal.antt =====
-- `renew` of src/reconciliation_job.rs on well-formed tables.
use rhi.Jobs.Swap.{updated, swap_cases, Found, time-keep, i64_value-le, is_leased_of_holds}
use rhi.Jobs.Rows.{renewed-fits}
use rhi.Jobs.Statements.{renews, renewed}
use rhi.Jobs.Operations.{renew}
use rhi.Jobs.Types.{Lease, lease_lost, not_ready}
use rhi.Jobs.Target.{hits, row_of, read_job-DbValid}
use rhi.Jobs.Tables.{AllSucceed, RowsFit-of}
use rhi.Jobs.Valid.{DbValid, job_of}
use rhi.Jobs.Store.{Db}
use rhi.Jobs.Schema.{Row}
use rhi.Base.{
  ℕ, inl, inr, ok, suc, List, ◌≡◌, ◌⊎◌, err, refl, ◌≤◌, max_i64, ◌<◌, ◌+◌, arith, &&-left, none,
  false, ltb, ◌&&◌, leb, keep, checked,
}

module _ (sha256 : List ℕ → ℕ) (room : ℕ) (db : Db) (v : DbValid sha256 (suc room) db) where
  -- What `renew` gives: the lease is lost and no row is changed, or it runs on from `now`.
  abbrev pub Renewed : Lease → ℕ → Type 0
  Renewed lease now =
      let expires : ℕ = now + lease.job.policy.lease_duration_ms in
      let db' = updated (renews lease now) (renewed expires now) db in
      ((renew sha256 lease now db ≡ err lease_lost)
        × (hits (renews lease now) (row_of lease.job.id db.jobs) ≡ 0))
      ⊎ ((r : Row) × Found sha256 room db v lease (renews lease now) r
          × (renew sha256 lease now db
              ≡ ok (
                record {
                  job = job_of (renewed expires now r);
                  owner = lease.owner;
                  lease_expires = expires;
                },
                db',
              ))
          × DbValid sha256 room db'
          × AllSucceed db.jobs db'.jobs)

  -- On well-formed tables, with a new expiry later than the old one and in range, `renew` either
  -- is LeaseLost and no row meets the compare-and-swap, or returns the same owner's lease until
  -- one lease duration after `now`, with well-formed tables in which every row succeeds its old
  -- one.
  pub renew_in_range :
      (lease : Lease) (now : ℕ)
      → now ≤ max_i64
      → lease.lease_expires < now + lease.job.policy.lease_duration_ms
      → now + lease.job.policy.lease_duration_ms ≤ max_i64
      → Renewed lease now
  unfolding renew
  renew_in_range lease now small longer fits =
      let time_in =
        time-keep lease.lease_expires (now + lease.job.policy.lease_duration_ms) longer fits in
      elim (swap_cases sha256 room db v lease.job.id (renews lease now)
        (renewed (now + lease.job.policy.lease_duration_ms) now) (λ r h. ground arith) (λ r. refl)
        (RowsFit-of sha256 room _ _ db.jobs v.rows λ r w h.
          renewed-fits sha256 room _ lease (now + lease.job.policy.lease_duration_ms) now r w h
            (omega arith) fits small)) [
              | inl (e, lost) ↦ inl (rw (time_in, i64_value-le now small, e, renew), lost)
              | inr (r, found, hit, e, valid, read, moved) ↦ inr (
                r,
                (found, hit),
                rw (
                  time_in,
                  i64_value-le now small,
                  e,
                  read_job-DbValid sha256 room lease.job.id _ valid,
                  read,
                  is_leased_of_holds lease now r (&&-left _ _ hit),
                  renew,
                ),
                valid,
                moved,
              )
            ]

  -- An expiry that is no later than the old one, or out of range, is refused before any write.
  pub renew_out_of_range :
      (lease : Lease) (now : ℕ)
      → (ltb lease.lease_expires (now + lease.job.policy.lease_duration_ms)
          && leb (now + lease.job.policy.lease_duration_ms) max_i64)
        ≡ false
      → renew sha256 lease now db ≡ err not_ready
  unfolding renew
  renew_out_of_range lease now out =
      let none_kept : keep (λ t. ltb lease.lease_expires t && leb t max_i64)
            (checked (now + lease.job.policy.lease_duration_ms))
          ≡ none =
        ground arith in
      rw none_kept
