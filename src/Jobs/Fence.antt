-- ===== src/Jobs/Fence.antt =====
-- `validate_exact_lease` of src/reconciliation_job.rs, by which other transactions check a lease.
use rhi.Jobs.Claim.{claim_next-cases, lease_for, claimed_db, swept, claimed}
use rhi.Jobs.Operations.{claim_next}
use rhi.Jobs.Target.{read_job-DbValid}
use rhi.Jobs.Leases.{IsStale, none_ne_some}
use rhi.Jobs.Valid.{DbValid, job_of}
use mathlib.Core.Option.{some-injective}
use rhi.Jobs.Statements.{is_leased}
use rhi.Jobs.Decode.{read_job}
use rhi.Jobs.Store.{Db}
use rhi.Jobs.Types.{
  Job, JobPolicy, JobState, Lease, ready, leased, exhausted, superseded, completed, max_lease_ms,
}
use rhi.Base.{
  ℕ, refl, none, some, true, false, List, Bool, Option, ◌<◌, ◌≡◌, ◌==◌, Result, ◌&&◌, ◌=?◌, ◌>>=◌,
  map_err, require, =?_iff, arith, ==_self, inl, inr, ok, err, suc, ◌≢◌, ◌+◌, ◌≤◌, max_i64, sym,
  ◌∙◌, subst, ok-pair,
}

pub data LeaseValidationError : Type 0 where
  lease_lost storage : LeaseValidationError

unfoldable pub same_state : JobState → JobState → Bool
same_state ready ready = true
same_state leased leased = true
same_state exhausted exhausted = true
same_state superseded superseded = true
same_state completed completed = true
same_state _ _ = false

unfoldable pub same_policy : JobPolicy → JobPolicy → Bool
same_policy p q =
    p.queue_capacity == q.queue_capacity
    && p.lease_duration_ms == q.lease_duration_ms
    && p.lease_renewal_ms == q.lease_renewal_ms
    && p.max_attempts == q.max_attempts
    && p.initial_backoff_ms == q.initial_backoff_ms
    && p.maximum_backoff_ms == q.maximum_backoff_ms

-- The derived equality of `RhiReconciliationJob`.
unfoldable pub same_job : Job → Job → Bool
unfolding same_state same_policy
same_job a b =
    a.id == b.id
    && a.trade_id == b.trade_id
    && a.input_generation == b.input_generation
    && a.policy_digest == b.policy_digest
    && same_state a.state b.state
    && a.revision == b.revision
    && a.attempt_count == b.attempt_count
    && a.failure_count == b.failure_count
    && same_policy a.policy b.policy
    && a.next_attempt =? b.next_attempt
    && a.lease_owner =? b.lease_owner
    && a.lease_expires =? b.lease_expires
    && a.created_at == b.created_at
    && a.updated_at == b.updated_at

abbrev is_job : Job → Option Job → Bool
is_job job none = false
is_job job (some current) = same_job current job

module _ (sha256 : List ℕ → ℕ) where
  unfoldable pub validate_exact_lease : Lease → Db → Result LeaseValidationError (Unit {0})
  validate_exact_lease lease db = do
    current ← map_err (λ _. storage) (read_job sha256 lease.job.id db)
    require
        (is_job lease.job current
          && is_leased lease.job.state
          && lease.job.lease_expires =? some lease.lease_expires)
        lease_lost

same_state_refl : (s : JobState) → same_state s s ≡ true
unfolding same_state
same_state_refl ready = refl
same_state_refl leased = refl
same_state_refl exhausted = refl
same_state_refl superseded = refl
same_state_refl completed = refl

same_job_refl : (a : Job) → same_job a a ≡ true
unfolding same_job same_policy
same_job_refl a =
    let self : (o : Option ℕ) → (o =? o) ≡ true = λ o. (=?_iff o o).1 refl in
    rw
      (
        ==_self a.id,
        same_state_refl a.state,
        self a.next_attempt,
        self a.lease_owner,
        self a.lease_expires,
      )
      (ground arith)

other_revision : (a b : Job) → b.revision < a.revision → same_job a b ≡ false
unfolding same_job
other_revision a b h = ground arith

module _ (sha256 : List ℕ → ℕ) (room : ℕ) where
  -- On well-formed tables with room for two more revisions, a nonzero owner and a time at least
  -- one longest lease before the end of the range, the lease that a `claim_next` returns is
  -- accepted by `validate_exact_lease` on the tables that it leaves.
  pub claim_next-validate :
      (owner now : ℕ) (db db' : Db) (lease : Lease)
      → DbValid sha256 (suc (suc room)) db
      → owner ≢ 0
      → now + max_lease_ms ≤ max_i64
      → claim_next sha256 owner now db ≡ ok (some lease, db')
      → validate_exact_lease sha256 lease db' ≡ ok tt
  unfolding validate_exact_lease
  claim_next-validate owner now db db' lease v owned fits e =
      elim (claim_next-cases sha256 room owner now owned db v fits) [
        | inl (_, e', _, _) ↦ absurd (none_ne_some lease (ok-pair (sym e' ∙ e)).0)
        | inr (r, _, _, e', valid, _, read, _) ↦
            let (same_lease, same_db) = ok-pair (sym e' ∙ e) in
            let to_lease : lease_for owner now r ≡ lease = some-injective _ _ same_lease in
            subst (λ l. validate_exact_lease sha256 l db' ≡ ok tt) to_lease
              (subst (λ d. validate_exact_lease sha256 (lease_for owner now r) d ≡ ok tt) same_db
                (rw
                  (
                    read_job-DbValid sha256 room r.job_id (claimed_db owner now r (swept now db))
                        valid,
                    read,
                    same_job_refl (job_of (claimed owner now r)),
                  )
                  (ground arith)))
      ]

  -- On well-formed tables, `validate_exact_lease` refuses a stale lease as LeaseLost.
  pub stale-validate :
      (db : Db) (lease : Lease)
      → DbValid sha256 room db
      → IsStale lease db
      → validate_exact_lease sha256 lease db ≡ err lease_lost
  unfolding validate_exact_lease
  stale-validate db lease v (r, found, older) =
      rw
        (
          read_job-DbValid sha256 room lease.job.id db v,
          found,
          other_revision (job_of r) lease.job older,
        )
        refl
