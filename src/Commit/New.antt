-- ===== src/Commit/New.antt =====
-- `commit` of src/reconciliation_commit.rs for an attempt that is not there yet.
use rhi.Commit.Checked.{
  CommitValid, is_attempt, NewCommit, current_dirty-ok, raw_outcome-flags, existing,
}
use rhi.Trade.Stored.{KeepsRows-trans}
use rhi.Commit.Same.{insert_attempt-ok}
use rhi.Commit.Stored.{persist_parts-ok, advance_if_new-ok, read_checkpoints-length, parts_later}
use rhi.Commit.Parts.{PartsWritten, write_parts-PartsWritten, open_from}
use rhi.Commit.Existing.{of_attempt}
use rhi.Attempt.Types.{AttemptPlan}
use rhi.Trade.Settled.{TradeValid, Forward, evidence_step, Forward-refl, Forward-trans}
use rhi.Commit.Types.{CommitTables, CommitOutcome, AttemptRow, jobs_of, map_source_error}
use rhi.Trade.Types.{TradeTables}
use rhi.Trade.Checkpoints.{read_dirty}
use rhi.Replay.Types.{CommitParts}
use rhi.Jobs.Types.{Lease}
use rhi.Jobs.Fence.{validate_exact_lease}
use rhi.Commit.Operation.{
  insert_attempt, commit_new, raw_outcome, current_dirty, with_evidence, map_lease_error,
  read_checkpoints, persist_parts, advance_if_new, write_parts,
}
use rhi.Base.{
  ok, ◌∷◌, true, false, inl, inr, suc, List, ℕ, count, ◌==◌, ◌≡◌, and_then-ok, Bool-cases, arith,
  ◌∙◌, subst, ap, map_err, sym, count-implies, &&-left, map_err-ok, ok-pair,
}

module _ (sha256 : List ℕ → ℕ) where
  pub commit_new-NewCommit :
      (lease : Lease) (plan : AttemptPlan) (parts : List CommitParts) (out : CommitOutcome)
      (db db' : CommitTables)
      → CommitValid db
      → count (is_attempt plan.id) db.attempts ≡ 0
      → commit_new sha256 lease plan parts db ≡ ok (out, db')
      → NewCommit sha256 lease plan parts out db db'
  unfolding commit_new
  commit_new-NewCommit lease plan parts out db db' v absent h =
      let p = plan.policy_digest in
      let leased = validate_exact_lease sha256 lease (jobs_of db) in
      let (u, e1, h1) = and_then-ok (map_err map_lease_error leased) h in
      let (read, e2, h2) =
        and_then-ok (map_err map_source_error (read_dirty lease.job.trade_id db.evidence)) h1 in
      let (dirty, e3, h3) = and_then-ok (current_dirty plan read) h2 in
      let (checkpoints, e4, h4) = and_then-ok (read_checkpoints p parts db.evidence) h3 in
      let (db1, e5, h5) = and_then-ok (insert_attempt plan db) h4 in
      let ((fresh, evidence), e6, h6) = and_then-ok (persist_parts p parts false db1.evidence) h5 in
      let (evidence', e7, h7) =
        and_then-ok (advance_if_new fresh lease.job.trade_id p parts dirty evidence) h6 in
      let (db2, e8, h8) =
        and_then-ok (write_parts sha256 plan.id p 0 parts checkpoints (with_evidence db1 evidence'))
          h7 in
      let (out', e9, h9) = and_then-ok (raw_outcome true fresh parts) h8 in
      let (same_out, same_db) = ok-pair h9 in
      let (is_read, of_input, of_policy) = current_dirty-ok sha256 plan read dirty e3 in
      let (row, made, owned, inserted) = insert_attempt-ok plan db db1 e5 in
      let (kept, stored) = persist_parts-ok p parts false fresh db1.evidence evidence e6 in
      let v1 : TradeValid db1.evidence =
        subst (λ (d : CommitTables). TradeValid d.evidence) inserted v.evidence in
      let (f1, v2) = evidence_step db1.evidence evidence kept v1 in
      let (f2, v3) =
        advance_if_new-ok fresh lease.job.trade_id p parts dirty evidence evidence' v2 e7 in
      let orphans = v.referred plan.id absent in
      let sources : db1.sources ≡ db.sources =
        ap (λ (d : CommitTables). d.sources) (sym inserted) in
      let w =
        write_parts-PartsWritten sha256 plan.id p 0 parts checkpoints (with_evidence db1 evidence')
          db2 (read_checkpoints-length p parts db.evidence checkpoints e4) v3
          (rw sources (
            count-implies (of_attempt plan.id) (open_from plan.id 0) db.sources
              (λ x hit. &&-left (x.attempt_id == plan.id) _ hit) orphans))
          e8 in
      let attempts : db1.attempts ≡ row ∷ db.attempts =
        ap (λ (d : CommitTables). d.attempts) (sym inserted) in
      let f0 : Forward db.evidence db1.evidence =
        subst (λ (d : CommitTables). Forward db.evidence d.evidence) inserted
          (Forward-refl db.evidence) in
      let forward = Forward-trans db.evidence db1.evidence db2.evidence f0 (
        Forward-trans db1.evidence evidence' db2.evidence
          (Forward-trans db1.evidence evidence evidence' f1 f2) w.forward) in
      let (is_created, flag, _) = raw_outcome-flags sha256 true fresh parts out' e9 in
      subst (NewCommit sha256 lease plan parts out db) same_db (
        subst (λ o. NewCommit sha256 lease plan parts o db db2) same_out
          (record {
            created = is_created;
            leased = map_err-ok map_lease_error leased e1;
            dirty = dirty;
            reads_dirty =
                map_err-ok map_source_error (read_dirty lease.job.trade_id db.evidence) e2
                ∙ ap ok is_read;
            of_input = of_input;
            of_policy = of_policy;
            forward = forward;
            jobs = w.jobs ∙ ap (λ (d : CommitTables). d.jobs) (sym inserted);
            valid = record {
              evidence = w.valid;
              referred = λ id none_there.
                  still_referred id row owned db1 db2 attempts sources w none_there;
            };
            stored =
                parts_later p evidence db2.evidence (KeepsRows-trans f2.rows w.forward.rows) parts
                  stored;
            again =
                existing sha256 plan parts row db (with_evidence db1 evidence') db2 absent orphans
                  made owned attempts sources w;
            outcome = rw flag e9;
          }))
    where
      still_referred :
          (id : ℕ) (row : AttemptRow)
          → row.attempt_id ≡ plan.id
          → (db1 db2 : CommitTables) → db1.attempts ≡ row ∷ db.attempts
          → db1.sources ≡ db.sources
          → {e : TradeTables}
          → PartsWritten sha256 plan.id plan.policy_digest 0 parts (with_evidence db1 e) db2
          → count (is_attempt id) db2.attempts ≡ 0
          → count (of_attempt id) db2.sources ≡ 0
      still_referred id row owned db1 db2 attempts sources w none_there =
          let there : db2.attempts ≡ row ∷ db.attempts = w.attempts ∙ attempts in
          let none_here : count (is_attempt id) (row ∷ db.attempts) ≡ 0 =
            subst (λ rows. count (is_attempt id) rows ≡ 0) there none_there in
          elim (Bool-cases (is_attempt id row)) [
            | inl mine ↦
                let h' : suc (count (is_attempt id) db.attempts) ≡ 0 = rw mine at none_here in
                absurd (omega arith)
            | inr other ↦
                let h' : count (is_attempt id) db.attempts ≡ 0 = rw other at none_here in
                let differs : (plan.id == id) ≡ false =
                  subst (λ z. (z == id) ≡ false) owned other in
                w.others id differs ∙ rw sources (v.referred id h')
          ]
