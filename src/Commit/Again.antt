-- ===== src/Commit/Again.antt =====
-- `commit` of src/reconciliation_commit.rs as a whole, and the same commit tried again.
use rhi.Commit.New.{commit_new-NewCommit}
use rhi.Commit.Checked.{CommitValid, raw_outcome-flags, is_attempt, NewCommit}
use rhi.Commit.Operation.{commit, raw_outcome, commit_new}
use rhi.Commit.Existing.{
  reconcile_existing, reconcile_counted, match_attempt, of_attempt, parts_committed,
}
use rhi.Attempt.Types.{AttemptPlan}
use rhi.Commit.Types.{CommitTables, CommitOutcome, conflict}
use rhi.Replay.Types.{CommitParts}
use rhi.Jobs.Types.{Lease}
use rhi.Base.{
  ok, zero, suc, true, false, inl, inr, refl, List, ℕ, ◌≡◌, and_then-ok, count, require, subst, ◌⊎◌,
  sym, ◌==◌, Bool-cases, and_then, length, ok-injective, ap, true_ne_false, ◌∙◌, ok-pair,
}

module _ (sha256 : List ℕ → ℕ) where
  absent-count :
      (n : ℕ) (plan : AttemptPlan) (parts : List CommitParts) (db : CommitTables)
      → reconcile_counted sha256 n plan parts db ≡ ok false
      → n ≡ 0
  absent-count zero plan parts db h = refl
  absent-count (suc more) plan parts db h =
      let (_, e1, h1) = and_then-ok (require (more == 0) conflict) h in
      let (matches, e2, h2) = and_then-ok (match_attempt plan db) h1 in
      let (_, e3, h3) = and_then-ok (require (matches == 1) conflict) h2 in
      let (_, e4, h4) =
        and_then-ok (require (count (of_attempt plan.id) db.sources == length parts) conflict) h3 in
      let (_, e5, h5) =
        and_then-ok (parts_committed sha256 plan.id plan.policy_digest 0 parts db) h4 in
      absurd (true_ne_false (ok-injective h5))

  reconcile_existing-absent :
      (plan : AttemptPlan) (parts : List CommitParts) (db : CommitTables)
      → reconcile_existing sha256 plan parts db ≡ ok false
      → count (is_attempt plan.id) db.attempts ≡ 0
  unfolding reconcile_existing
  reconcile_existing-absent plan parts db h =
      absent-count (count (is_attempt plan.id) db.attempts) plan parts db h

  -- On well-formed tables, a `commit` that goes well either finds the attempt and its parts,
  -- returns them as not created and changes nothing; or it is created under a lease that is valid,
  -- while the trade's dirty generation and policy are those of the plan: then all facts are
  -- stored, no row of evidence is changed, no checkpoint and no generation goes back, the jobs are
  -- as they were, the tables stay well formed, and the commit can be found again.
  pub commit-cases :
      (lease : Lease) (plan : AttemptPlan) (parts : List CommitParts) (out : CommitOutcome)
      (db db' : CommitTables)
      → CommitValid db
      → commit sha256 lease plan parts db ≡ ok (out, db')
      → ((db' ≡ db)
          × (out.created ≡ false)
          × (reconcile_existing sha256 plan parts db ≡ ok true)
          × (raw_outcome false false parts ≡ ok out))
        ⊎ NewCommit sha256 lease plan parts out db db'
  unfolding commit
  commit-cases lease plan parts out db db' v h =
      let (existing, e, h1) = and_then-ok (reconcile_existing sha256 plan parts db) h in
      elim (Bool-cases existing) [
        | inl found ↦
            let h2 : and_then (λ o. ok (o, db)) (raw_outcome false false parts) ≡ ok (out, db') =
              rw found at h1 in
            let (out', e2, h3) = and_then-ok (raw_outcome false false parts) h2 in
            let (same_out, same_db) = ok-pair h3 in
            let (flag, _, _) = raw_outcome-flags sha256 false false parts out' e2 in
            inl (
              sym same_db,
              ap (λ (o : CommitOutcome). o.created) (sym same_out) ∙ flag,
              e ∙ ap ok found,
              e2 ∙ ap ok same_out,
            )
        | inr absent ↦
            let h2 : commit_new sha256 lease plan parts db ≡ ok (out, db') = rw absent at h1 in
            inr (
              commit_new-NewCommit sha256 lease plan parts out db db' v
                (reconcile_existing-absent plan parts db (e ∙ ap ok absent)) h2)
      ]

  commit-existing :
      (lease : Lease) (plan : AttemptPlan) (parts : List CommitParts) (out : CommitOutcome)
      (db : CommitTables)
      → reconcile_existing sha256 plan parts db ≡ ok true
      → raw_outcome false false parts ≡ ok out
      → commit sha256 lease plan parts db ≡ ok (out, db)
  unfolding commit
  commit-existing lease plan parts out db found e = rw (found, e) refl

  -- On well-formed tables, once `commit` has returned an outcome, calling it again with the same
  -- plan and parts, under any lease, on the tables that it left returns the same outcome as not
  -- created, with no generation advanced, and changes nothing.
  pub commit-again :
      (lease other : Lease) (plan : AttemptPlan) (parts : List CommitParts) (out : CommitOutcome)
      (db db' : CommitTables)
      → CommitValid db
      → commit sha256 lease plan parts db ≡ ok (out, db')
      → commit sha256 other plan parts db'
        ≡ ok (record out { created = false; dirty_generation_advanced = false }, db')
  commit-again lease other plan parts out db db' v h =
      elim (commit-cases lease plan parts out db db' v h) [
        | inl (same, _, found, e) ↦
            let (_, _, repeated) = raw_outcome-flags sha256 false false parts out e in
            commit-existing other plan parts _ db'
              (subst (λ d. reconcile_existing sha256 plan parts d ≡ ok true) (sym same) found)
              repeated
        | inr new ↦
            let (_, _, repeated) =
              raw_outcome-flags sha256 true out.dirty_generation_advanced parts out new.outcome in
            commit-existing other plan parts _ db' new.again repeated
      ]
