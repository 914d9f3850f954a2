-- ===== src/Jobs/Leases.antt =====
-- What the compare-and-swap leases of src/reconciliation_job.rs give their holders.
use rhi.Jobs.Failure.{record_final_failure, record_retried_failure}
use rhi.Jobs.Renewal.{renew_in_range}
use rhi.Jobs.Tables.{NotBefore}
use rhi.Jobs.History.{Extends}
use rhi.Jobs.Claim.{claim_next-cases, swept, claimed_db, lease_for, claimed}
use mathlib.Core.Option.{some-injective}
use rhi.Jobs.Operations.{claim_next, renew, record_failure}
use rhi.Jobs.Types.{max_lease_ms, Lease, lease_lost}
use rhi.Jobs.Swap.{updated}
use rhi.Jobs.Valid.{DbValid}
use rhi.Jobs.Target.{row_of, changed_row}
use rhi.Jobs.Store.{Db, among_first, before_by}
use rhi.Jobs.Statements.{
  claimable, spent, is_leased, claims, claim, expiry, exhaust_expired, exhausts, renews, retries,
}
use rhi.Jobs.Schema.{Row}
use rhi.Base.{
  ℕ, refl, [], some, true, false, inl, inr, ok, suc, ◌∷◌, List, Bool, ◌≡◌, arith, ◌<◌, update_where,
  ◌≢◌, ◌+◌, ◌∙◌, Bool-cases, ap, ◌==◌, ◌≤◌, ==_iff, max_i64, Option, subst, sym, none, ok-injective,
  err, le_or_lt, ok-pair,
}

-- An UPDATE that keeps ids changes the row that is read under an id exactly if its condition takes it.
row_of-update_keeps :
    (p : Row → Bool) (f : Row → Row) (same_id : (r : Row) → (f r).job_id ≡ r.job_id) (id : ℕ)
    (rows : List Row)
    → row_of id (update_where p f rows) ≡ changed_row p f (row_of id rows)
row_of-update_keeps p f same_id id [] = refl
row_of-update_keeps p f same_id id (r ∷ rows) = elim (Bool-cases (r.job_id == id)) [
  | inl here ↦ elim (Bool-cases (p r)) [
    | inl hit ↦
        let there : ((f r).job_id == id) ≡ true =
          (==_iff _ _).1 (same_id r ∙ (==_iff r.job_id id).0 here) in
        rw (hit, here, there) (rw hit)
    | inr miss ↦ rw (miss, here) (rw miss)
  ]
  | inr other ↦ elim (Bool-cases (p r)) [
    | inl hit ↦
        let away : ((f r).job_id == id) ≡ false =
          subst (λ k. (k == id) ≡ false) (sym (same_id r)) other in
        rw (hit, other, away) (row_of-update_keeps p f same_id id rows)
    | inr miss ↦ rw (miss, other) (row_of-update_keeps p f same_id id rows)
  ]
]

-- A row whose lease runs beyond `now`.
abbrev pub IsLive : ℕ → Row → Type 0
IsLive now r = (t : ℕ) × (r.lease_expires_unix_ms ≡ some t) × (now < t) × (is_leased r.state ≡ true)

live-not_spent : (now : ℕ) (r : Row) → IsLive now r → spent now r ≡ false
live-not_spent now r (t, e, later, held) = ground arith

live-not_claimable : (now : ℕ) (r : Row) → IsLive now r → claimable now r ≡ false
live-not_claimable now r (t, e, later, held) = ground arith

kept_row :
    (p : Row → Bool) (f : Row → Row) (same_id : (r : Row) → (f r).job_id ≡ r.job_id) (db : Db)
    (id : ℕ) (r : Row)
    → row_of id db.jobs ≡ some r
    → p r ≡ false
    → row_of id (updated p f db).jobs ≡ some r
kept_row p f same_id db id r found miss =
    row_of-update_keeps p f same_id id db.jobs ∙ ap (changed_row p f) found ∙ (rw miss)

swept_row :
    (now id : ℕ) (db : Db) (r : Row)
    → row_of id db.jobs ≡ some r
    → IsLive now r
    → row_of id (swept now db).jobs ≡ some r
unfolding among_first
swept_row now id db r found live =
    kept_row (among_first 65536 (spent now) (before_by expiry) db.jobs) (exhaust_expired now)
      (λ s. refl) db id r found (rw (live-not_spent now r live))

module _ (sha256 : List ℕ → ℕ) (room : ℕ) (db : Db) (v : DbValid sha256 (suc (suc room)) db) where
  -- On well-formed tables with room for two more revisions, while the lease of a job runs beyond
  -- `now`, a successful `claim_next`, by a nonzero owner and at a time at least one longest lease
  -- before the end of the range, leaves the job's row exactly as it is.
  pub claim_next-keeps_live :
      (owner now : ℕ)
      → owner ≢ 0
      → now + max_lease_ms ≤ max_i64
      → (id : ℕ) (r : Row) → row_of id db.jobs ≡ some r
      → IsLive now r
      → (result : Option Lease × Db) → claim_next sha256 owner now db ≡ ok result
      → row_of id result.1.jobs ≡ some r
  claim_next-keeps_live owner now owned fits id r found live result e =
      let still = swept_row now id db r found live in
      let Kept : Option Lease × Db → Type 0 = λ out. row_of id out.1.jobs ≡ some r in
      elim (claim_next-cases sha256 room owner now owned db v fits) [
        | inl (idle, e', _, _) ↦ subst Kept (ok-injective (sym e' ∙ e)) still
        | inr (c, chosen, _, e', _, _, _, _) ↦
            let spared : claims c.job_id c.revision now r ≡ false =
              ground (arith, live-not_claimable now r live) in
            subst Kept (ok-injective (sym e' ∙ e)) (
              kept_row (claims c.job_id c.revision now)
                (claim owner (now + c.lease_duration_ms) now) (λ s. refl) (swept now db) id r still
                spared)
      ]

-- Some row of the lease's job has moved on from the revision that the lease names.
abbrev pub IsStale : Lease → Db → Type 0
IsStale lease db =
    (r : Row) × (row_of lease.job.id db.jobs ≡ some r) × (lease.job.revision < r.revision)

pub IsStale-Extends :
    (lease : Lease) (db db' : Db) → Extends db db' → IsStale lease db → IsStale lease db'
IsStale-Extends lease db db' extends (r, found, older) =
    let (s, found', near) = extends lease.job.id r found in
    (s, found', omega (arith, near.advances))

pub none_ne_some : (lease : Lease) → none ≡ some lease → ⊥
none_ne_some lease e = cc

-- On well-formed tables with room for two more revisions, a `claim_next`, by a nonzero owner and
-- at a time at least one longest lease before the end of the range, that leases the job of an
-- earlier lease, one of no later revision than the job's row, makes the earlier lease stale, and
-- no job is lost or set back.
pub claim-IsStale :
    (sha256 : List ℕ → ℕ) (room : ℕ) (db : Db) (owner now : ℕ)
    → DbValid sha256 (suc (suc room)) db
    → owner ≢ 0
    → now + max_lease_ms ≤ max_i64
    → (old : Lease) (r : Row) → row_of old.job.id db.jobs ≡ some r
    → old.job.revision ≤ r.revision
    → (lease : Lease) (db' : Db) → claim_next sha256 owner now db ≡ ok (some lease, db')
    → lease.job.id ≡ old.job.id
    → IsStale old db' × Extends db db'
claim-IsStale sha256 room db owner now v owned fits old r found older lease db' e same =
    elim (claim_next-cases sha256 room owner now owned db v fits) [
      | inl (idle, e', valid, extends) ↦ absurd (none_ne_some lease (ok-pair (sym e' ∙ e)).0)
      | inr (c, chosen, at_c, e', valid, extends, read, extends') ↦
          let (same_lease, same_db) = ok-pair (sym e' ∙ e) in
          let to_db : claimed_db owner now c (swept now db) ≡ db' = same_db in
          let to_lease : lease_for owner now c ≡ lease = some-injective _ _ same_lease in
          let ids : c.job_id ≡ old.job.id = ap (λ (l : Lease). l.job.id) to_lease ∙ same in
          let (s, at_s, near) = extends old.job.id r found in
          let here : row_of old.job.id (swept now db).jobs ≡ some c =
            subst (λ id. row_of id (swept now db).jobs ≡ some c) ids at_c in
          let one : s ≡ c = some-injective _ _ (sym at_s ∙ here) in
          let newer : r.revision ≤ c.revision =
            subst (λ (z : Row). r.revision ≤ z.revision) one near.advances in
          let there : row_of old.job.id (claimed_db owner now c (swept now db)).jobs
              ≡ some (claimed owner now c) =
            subst
              (λ id.
                row_of id (claimed_db owner now c (swept now db)).jobs ≡ some (claimed owner now c))
              ids read in
          subst (λ d. IsStale old d × Extends db d) to_db
            ((claimed owner now c, there, omega arith), extends')
    ]

-- A stale lease has lost its authority for good: whatever the tables have become since, it neither
-- renews nor records a failure.
module _ (sha256 : List ℕ → ℕ) (room : ℕ) (db : Db) (v : DbValid sha256 (suc room) db) where
  no_hit :
      (lease : Lease) (p : Row → Bool)
      → ((r : Row) → p r ≡ true → r.revision ≡ lease.job.revision)
      → IsStale lease db
      → (r : Row) → row_of lease.job.id db.jobs ≡ some r
      → p r ≡ true
      → ⊥
  no_hit lease p exact (s, at_s, newer) r at_r hit =
      let same : s ≡ r = some-injective _ _ (sym at_s ∙ at_r) in
      let older : lease.job.revision < r.revision =
        subst (λ (z : Row). lease.job.revision < z.revision) same newer in
      absurd (omega (arith, exact r hit))

  -- On well-formed tables, a stale lease does not renew: with a new expiry that is later and in
  -- range, `renew` is LeaseLost.
  pub stale-renew :
      (lease : Lease) (now : ℕ)
      → IsStale lease db
      → now ≤ max_i64
      → lease.lease_expires < now + lease.job.policy.lease_duration_ms
      → now + lease.job.policy.lease_duration_ms ≤ max_i64
      → renew sha256 lease now db ≡ err lease_lost
  stale-renew lease now stale small longer fits =
      elim (renew_in_range sha256 room db v lease now small longer fits) [
        | inl (lost, _) ↦ lost
        | inr (r, (at_r, hit), _, _, _) ↦
            absurd (no_hit lease (renews lease now) (λ s h. ground arith) stale r at_r hit)
      ]

  -- On well-formed tables that the clock is not behind, a stale lease records no failure: with a
  -- retry time in range, `record_failure` is LeaseLost.
  pub stale-record_failure :
      (lease : Lease) (now delay : ℕ)
      → IsStale lease db
      → NotBefore now db.jobs
      → now + delay ≤ max_i64
      → record_failure sha256 lease now delay db ≡ err lease_lost
  stale-record_failure lease now delay stale late fits =
      elim (le_or_lt lease.job.policy.max_attempts lease.job.attempt_count) [
        | inl last ↦
            elim (record_final_failure sha256 room db v lease now delay (omega arith) late last) [
              | inl (lost, _) ↦ lost
              | inr (r, (at_r, hit), _, _, _) ↦
                  absurd (no_hit lease (exhausts lease now) (λ s h. ground arith) stale r at_r hit)
            ]
        | inr more ↦ elim (record_retried_failure sha256 room db v lease now delay fits late more) [
          | inl (lost, _) ↦ lost
          | inr (r, (at_r, hit), _, _, _) ↦
              absurd (no_hit lease (retries lease now) (λ s h. ground arith) stale r at_r hit)
        ]
      ]
