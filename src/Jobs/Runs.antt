-- ===== src/Jobs/Runs.antt =====
-- Sequences of committed transactions of src/reconciliation_job.rs, in any order and by any workers.
use mathlib.Core.Option.{some-injective}
use rhi.Jobs.Tables.{NotBefore, Succeeds}
use rhi.Jobs.Leases.{IsStale, none_ne_some, IsStale-Extends, stale-renew, stale-record_failure}
use rhi.Jobs.Claim.{claim_next-cases, claimed_db, swept, lease_for, claimed}
use rhi.Jobs.Operations.{claim_next, renew, record_failure}
use rhi.Jobs.Target.{row_of, row_of-RowValid}
use rhi.Jobs.Types.{Lease, max_lease_ms, lease_lost}
use rhi.Jobs.Schema.{Row}
use rhi.Jobs.History.{Extends, Extends-refl, Extends-trans}
use rhi.Jobs.Valid.{DbValid}
use rhi.Jobs.Steps.{
  Step, Step-Keeps, scheduled, claimed_one, claimed_none, renewed_one, failed_one, completed_one,
  dirtied, Keeps,
}
use rhi.Jobs.Store.{Db}
use rhi.Base.{
  ℕ, zero, suc, List, ◌≤◌, arith, max_i64, some, inl, inr, ok, ◌+◌, ◌≢◌, if◌then◌else◌, ◌≡◌, ◌==◌,
  err, refl, ◌∙◌, Bool-cases, ap, subst, ◌<◌, ==_iff, sym, ok-pair,
}

-- A run of so many steps.
pub data Run (sha256 : List ℕ → ℕ) : ℕ → Db → Db → Type 0 where
  done : {db : Db} → Run sha256 0 db db
  next : {n : ℕ} {a b c : Db} → Step sha256 a b → Run sha256 n b c → Run sha256 (suc n) a c

-- The room for revisions that a run of `n` steps uses up, over `room`.
abbrev pub spare : ℕ → ℕ → ℕ
spare zero room = room
spare (suc n) room = suc (suc (spare n room))

room-le-spare : (n room : ℕ) → room ≤ spare n room
room-le-spare zero room = omega arith
room-le-spare (suc n) room = omega (arith, room-le-spare n room)

-- A run of any number of committed `schedule`, `claim_next`, `renew`, `record_failure` and
-- `complete_job` transactions and changes of the dirty generations, where `schedule` (for a policy
-- and a time in range) and `record_failure` have a clock that no row is ahead of, and `claim_next`
-- a nonzero owner and a time at least one longest lease before the end of the range, keeps the
-- tables well formed, if there is room for two revisions a step, and loses no job and sets none
-- back.
pub Run-DbValid :
    (sha256 : List ℕ → ℕ) (n room : ℕ) {a b : Db}
    → DbValid sha256 (spare n room) a
    → spare n room ≤ max_i64
    → Run sha256 n a b
    → DbValid sha256 room b × Extends a b
Run-DbValid sha256 zero room {a} v fits done = (v, Extends-refl a)
Run-DbValid sha256 (suc n) room {a} v fits (next {b = b} {c = c} step run) =
    let (valid, first) = Step-Keeps sha256 (spare n room) v (omega arith) step in
    let (valid', rest) = Run-DbValid sha256 n room valid (omega arith) run in
    (valid', Extends-trans a b c first rest)

-- How often a step, and a run, claims the job.
abbrev pub claims_by : (sha256 : List ℕ → ℕ) (id : ℕ) {a b : Db} → Step sha256 a b → ℕ
claims_by sha256 id (scheduled trade_id policy now outcome usual late small e) = 0
claims_by sha256 id (claimed_one owner now lease owned fits e) = if lease.job.id == id then 1 else 0
claims_by sha256 id (claimed_none owner now owned fits e) = 0
claims_by sha256 id (renewed_one lease lease' now e) = 0
claims_by sha256 id (failed_one lease now delay job late e) = 0
claims_by sha256 id (completed_one job_id lease now e) = 0
claims_by sha256 id (dirtied rows) = 0

abbrev pub claims_in : (sha256 : List ℕ → ℕ) (id : ℕ) {n : ℕ} {a b : Db} → Run sha256 n a b → ℕ
claims_in sha256 id done = 0
claims_in sha256 id (next step run) = claims_by sha256 id step + claims_in sha256 id run

-- The row of the job after some claims.
abbrev Tried : ℕ → Row → ℕ → Db → Type 0
Tried id r claims b =
    (s : Row) × (row_of id b.jobs ≡ some s)
    × (r.attempt_count + claims ≤ s.attempt_count)
    × (s.max_attempts ≡ r.max_attempts)

untried : (id : ℕ) (a b : Db) (r : Row) → Extends a b → row_of id a.jobs ≡ some r → Tried id r 0 b
untried id a b r extends found =
    let (s, at_s, near) = extends id r found in
    (s, at_s, omega (arith, near.attempts), near.same_limit)

module _ (sha256 : List ℕ → ℕ) (room : ℕ) (id : ℕ) where
  claim-Tried :
      (owner now : ℕ) (a : Db) (lease : Lease) (b : Db) (r : Row)
      → DbValid sha256 (suc (suc room)) a
      → owner ≢ 0
      → now + max_lease_ms ≤ max_i64
      → claim_next sha256 owner now a ≡ ok (some lease, b)
      → row_of id a.jobs ≡ some r
      → lease.job.id ≡ id
      → Tried id r 1 b
  claim-Tried owner now a lease b r v owned fits e found same =
      elim (claim_next-cases sha256 room owner now owned a v fits) [
        | inl (_, e', _, _) ↦ absurd (none_ne_some lease (ok-pair (sym e' ∙ e)).0)
        | inr (c, chosen, at_c, e', valid, extends, read, extends') ↦
            let (same_lease, same_db) = ok-pair (sym e' ∙ e) in
            let to_db : claimed_db owner now c (swept now a) ≡ b = same_db in
            let to_lease : lease_for owner now c ≡ lease = some-injective _ _ same_lease in
            let ids : c.job_id ≡ id = ap (λ (l : Lease). l.job.id) to_lease ∙ same in
            let (s, at_s, near) = extends id r found in
            let here : row_of id (swept now a).jobs ≡ some c =
              subst (λ k. row_of k (swept now a).jobs ≡ some c) ids at_c in
            let one : s ≡ c = some-injective _ _ (sym at_s ∙ here) in
            let tried : Succeeds r c = subst (Succeeds r) one near in
            let there : row_of id (claimed_db owner now c (swept now a)).jobs
                ≡ some (claimed owner now c) =
              subst
                (λ k.
                  row_of k (claimed_db owner now c (swept now a)).jobs ≡ some (claimed owner now c))
                ids read in
            subst (Tried id r 1) to_db
              (claimed owner now c, there, omega (arith, tried.attempts), tried.same_limit)
      ]

  Step-Tried :
      {a b : Db} (r : Row) (step : Step sha256 a b)
      → DbValid sha256 (suc (suc room)) a
      → Keeps sha256 room a b
      → row_of id a.jobs ≡ some r
      → Tried id r (claims_by sha256 id step) b
  Step-Tried {a} {b} r (claimed_one owner now lease owned fits e) v keeps found =
      elim (Bool-cases (lease.job.id == id)) [
        | inl same ↦ rw same (
            claim-Tried owner now a lease b r v owned fits e found
              ((==_iff lease.job.id id).0 same))
        | inr other ↦ rw other (untried id a b r keeps.1 found)
      ]
  Step-Tried {a} {b} r (scheduled trade_id policy now outcome usual late small e) v keeps found =
      untried id a b r keeps.1 found
  Step-Tried {a} {b} r (claimed_none owner now owned fits e) v keeps found =
      untried id a b r keeps.1 found
  Step-Tried {a} {b} r (renewed_one lease lease' now e) v keeps found =
      untried id a b r keeps.1 found
  Step-Tried {a} {b} r (failed_one lease now delay job late e) v keeps found =
      untried id a b r keeps.1 found
  Step-Tried {a} {b} r (completed_one job_id lease now e) v keeps found =
      untried id a b r keeps.1 found
  Step-Tried {a} {b} r (dirtied rows) v keeps found = untried id a b r keeps.1 found

Run-Tried :
    (sha256 : List ℕ → ℕ) (id n room : ℕ) {a b : Db} (r : Row) (run : Run sha256 n a b)
    → DbValid sha256 (spare n room) a
    → spare n room ≤ max_i64
    → row_of id a.jobs ≡ some r
    → Tried id r (claims_in sha256 id run) b
Run-Tried sha256 id zero room {a} r done v fits found = (r, found, omega arith, refl)
Run-Tried sha256 id (suc n) room {a} r (next {b = b} {c = c} step run) v fits found =
    let keeps = Step-Keeps sha256 (spare n room) v (omega arith) step in
    let (s, at_s, more, limit) = Step-Tried sha256 (spare n room) id r step v keeps found in
    let (t, at_t, rest, limit') = Run-Tried sha256 id n room s run keeps.0 (omega arith) at_s in
    (t, at_t, omega arith, limit' ∙ limit)

-- In a run of any number of committed `schedule`, `claim_next`, `renew`, `record_failure` and
-- `complete_job` transactions and changes of the dirty generations, where `schedule` (for a policy
-- and a time in range) and `record_failure` have a clock that no row is ahead of, and `claim_next`
-- a nonzero owner and a time at least one longest lease before the end of the range, from well-
-- formed tables with room for two revisions a step, the attempts of a job and the times that the
-- run claims it are together at most the limit on its attempts.
pub Run-claims_le :
    (sha256 : List ℕ → ℕ) (id n room : ℕ) {a b : Db} (r : Row) (run : Run sha256 n a b)
    → DbValid sha256 (spare n room) a
    → spare n room ≤ max_i64
    → row_of id a.jobs ≡ some r
    → r.attempt_count + claims_in sha256 id run ≤ r.max_attempts
Run-claims_le sha256 id n room {a} {b} r run v fits found =
    let (t, at_t, tried, limit) = Run-Tried sha256 id n room r run v fits found in
    let valid = (Run-DbValid sha256 n room v fits run).0 in
    let (row, _) = row_of-RowValid sha256 room id b.jobs valid.rows at_t in
    omega (arith, row.within)

-- On well-formed tables, a lease that is stale stays without authority: after a run of any number
-- of committed `schedule`, `claim_next`, `renew`, `record_failure` and `complete_job` transactions
-- and changes of the dirty generations, where `schedule` (for a policy and a time in range) and
-- `record_failure` have a clock that no row is ahead of, and `claim_next` a nonzero owner and a
-- time at least one longest lease before the end of the range, with room for two revisions a step
-- and one more, it neither renews (for a new expiry that is later and in range) nor records a
-- failure (at a time that the tables are not after, with a retry time in range), and both are
-- LeaseLost.
pub stale_for_ever :
    (sha256 : List ℕ → ℕ) (n room : ℕ) {a b : Db} (run : Run sha256 n a b)
    → DbValid sha256 (spare n (suc room)) a
    → spare n (suc room) ≤ max_i64
    → (lease : Lease) → IsStale lease a
    → (now delay : ℕ) → NotBefore now b.jobs
    → now + delay ≤ max_i64
    → lease.lease_expires < now + lease.job.policy.lease_duration_ms
    → now + lease.job.policy.lease_duration_ms ≤ max_i64
    → (renew sha256 lease now b ≡ err lease_lost)
      × (record_failure sha256 lease now delay b ≡ err lease_lost)
stale_for_ever sha256 n room {a} {b} run v fits lease stale now delay late inside longer fits' =
    let (valid, extends) = Run-DbValid sha256 n (suc room) v fits run in
    let later = IsStale-Extends lease a b extends stale in
    (
      stale-renew sha256 room b valid lease now later (omega arith) longer fits',
      stale-record_failure sha256 room b valid lease now delay later late inside,
    )
