-- ===== src/Commit/Checked.antt =====
-- What the checks of `commit` in src/reconciliation_commit.rs say, and when an attempt is found again.
use rhi.Commit.Same.{same_attempt_row_self, same_attempt_row-id}
use rhi.Commit.Stored.{PartStored}
use rhi.Commit.Rows.{attempt_row, same_attempt_row}
use rhi.Commit.Parts.{PartsWritten}
use rhi.Commit.Existing.{reconcile_existing, match_attempt, of_attempt}
use rhi.Attempt.Types.{AttemptPlan}
use rhi.Trade.Settled.{TradeValid, Forward}
use rhi.Commit.Types.{CommitTables, CommitOutcome, AttemptRow, jobs_of, storage, CommitError}
use rhi.Trade.Types.{DirtyState}
use rhi.Trade.Checkpoints.{read_dirty}
use rhi.Replay.Types.{CommitParts}
use rhi.Jobs.Types.{Lease}
use rhi.Jobs.Fence.{validate_exact_lease}
use rhi.Commit.Operation.{raw_outcome, current_dirty, scopes}
use rhi.Base.{
  ok, some, none, ◌∷◌, true, false, refl, suc, List, ℕ, Bool, count, Option, ◌==◌, ◌≡◌, and_then-ok,
  All, err_ne_ok, require, arith, leb, ◌∙◌, ==_self, length, subst, ◌&&◌, ap, ok-injective, sym,
  count-implies, require-ok, ==_iff, guarded-ok,
}

abbrev pub is_attempt : ℕ → AttemptRow → Bool
is_attempt id r = r.attempt_id == id

-- Well-formed: the tables of evidence are, and a source row refers to an attempt.
pub record CommitValid (db : CommitTables) : Type 0 where
  pub evidence : TradeValid db.evidence
  pub referred :
      (id : ℕ) → count (is_attempt id) db.attempts ≡ 0 → count (of_attempt id) db.sources ≡ 0

module _ (sha256 : List ℕ → ℕ) where
  -- What a commit that is new leaves.
  pub record NewCommit (lease : Lease) (plan : AttemptPlan) (parts : List CommitParts)
      (out : CommitOutcome) (db db' : CommitTables) : Type 0 where
    pub created : out.created ≡ true
    pub leased : validate_exact_lease sha256 lease (jobs_of db) ≡ ok tt
    pub dirty : DirtyState
    pub reads_dirty : read_dirty lease.job.trade_id db.evidence ≡ ok (some dirty)
    pub of_input : dirty.generation ≡ plan.input_generation
    pub of_policy : dirty.policy ≡ plan.policy_digest
    pub forward : Forward db.evidence db'.evidence
    pub jobs : db'.jobs ≡ db.jobs
    pub valid : CommitValid db'
    pub stored : All (PartStored plan.policy_digest db'.evidence) parts
    pub again : reconcile_existing sha256 plan parts db' ≡ ok true
    pub outcome : raw_outcome true out.dirty_generation_advanced parts ≡ ok out

  pub current_dirty-ok :
      (plan : AttemptPlan) (read : Option DirtyState) (dirty : DirtyState)
      → current_dirty plan read ≡ ok dirty
      → (read ≡ some dirty)
        × (dirty.generation ≡ plan.input_generation)
        × (dirty.policy ≡ plan.policy_digest)
  current_dirty-ok plan none dirty h = absurd (err_ne_ok h)
  current_dirty-ok plan (some found) dirty h =
      let (current, same) =
        guarded-ok (found.generation == plan.input_generation && found.policy == plan.policy_digest)
          found CommitError.generation_conflict h in
      (
        ap some same,
        subst (λ d. d.generation ≡ plan.input_generation) same (ground arith),
        subst (λ d. d.policy ≡ plan.policy_digest) same (ground arith),
      )

  -- The attempt and its parts are found again as they were written.
  pub existing :
      (plan : AttemptPlan) (parts : List CommitParts) (row : AttemptRow) (db db1 db' : CommitTables)
      → count (is_attempt plan.id) db.attempts ≡ 0
      → count (of_attempt plan.id) db.sources ≡ 0
      → attempt_row plan ≡ ok row
      → row.attempt_id ≡ plan.id
      → db1.attempts ≡ row ∷ db.attempts
      → db1.sources ≡ db.sources
      → PartsWritten sha256 plan.id plan.policy_digest 0 parts db1 db'
      → reconcile_existing sha256 plan parts db' ≡ ok true
  unfolding reconcile_existing match_attempt
  existing plan parts row db db1 db' absent orphans made owned written rest w =
      let attempts : db'.attempts ≡ row ∷ db.attempts = w.attempts ∙ written in
      let one : count (is_attempt plan.id) db'.attempts ≡ 1 =
        rw (attempts, owned, ==_self plan.id) (ap suc absent) in
      let matched : count (same_attempt_row row) db'.attempts ≡ 1 =
        rw (attempts, same_attempt_row_self row)
          (ap suc (
            count-implies (is_attempt plan.id) (same_attempt_row row) db.attempts
              (λ x same. of_plan x (same_attempt_row-id row x same ∙ owned)) absent)) in
      let number : (count (of_attempt plan.id) db'.sources == length parts) ≡ true =
        (==_iff (count (of_attempt plan.id) db'.sources) (length parts)).1
          (w.number ∙ (rw (rest, orphans) (omega arith))) in
      rw (one, made, matched, number, w.again) refl
    where
      of_plan : (x : AttemptRow) → x.attempt_id ≡ plan.id → is_attempt plan.id x ≡ true
      of_plan x same = ground arith

  pub raw_outcome-flags :
      (created advanced : Bool) (parts : List CommitParts) (out : CommitOutcome)
      → raw_outcome created advanced parts ≡ ok out
      → (out.created ≡ created)
        × (out.dirty_generation_advanced ≡ advanced)
        × (raw_outcome false false parts
            ≡ ok (record out { created = false; dirty_generation_advanced = false }))
  unfolding raw_outcome
  raw_outcome-flags created advanced parts out h =
      let (_, few, h1) = and_then-ok (require (leb (length parts) 4294967295) storage) h in
      let (_, fewer, h2) =
        and_then-ok (require (leb (length (scopes parts)) 4294967295) storage) h1 in
      let same = ok-injective h2 in
      (
        ap (λ (o : CommitOutcome). o.created) (sym same),
        ap (λ (o : CommitOutcome). o.dirty_generation_advanced) (sym same),
        rw (require-ok _ storage few, require-ok _ storage fewer)
            (ap
              (λ (o : CommitOutcome).
                ok (record o { created = false; dirty_generation_advanced = false }))
              same),
      )
