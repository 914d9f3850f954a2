-- ===== src/Outbox/Twice.antt =====
-- `record_outcome` of src/publication_execution.rs, called twice with the same input.
use rhi.Outbox.Recorded.{submitted_target-ok, write_attempt-ok}
use rhi.Outbox.Repeated.{target_after, reconciles}
use rhi.Outbox.Decisions.{target_outcome_schedule, disposition}
use rhi.Outbox.Written.{LeaseHeld, insert_attempt-ok}
use rhi.Outbox.Repeat.{OneEach, outbox_after, read_attempt-inserted}
use rhi.Outbox.Store.{Tables, at_outbox, on_target, TargetRow, TxResult}
use rhi.Outbox.Reads.{read_targets, decode_targets, sort_targets, targets_under, read_attempt}
use rhi.Outbox.Record.{
  record_new, record_outcome, close_attempt, submitted_target, write_attempt, record_unless,
  reconcile_recorded,
}
use rhi.Outbox.Statements.{
  outcome_target, lease_of_input, target_numbered, insert_attempt, write_outcome,
  update_outbox_after_attempt, committed, attempt_record,
}
use rhi.Base.{
  some, true, ok, List, Option, ℕ, ◌≡◌, sym, ok-injective, and_then-ok, ◌∙◌, ap, refl, ◌∷◌,
  update_where, ◌≤◌, max_i64, take, inl, inr, Option-cases, subst, then_ok,
}
use rhi.Outbox.Types.{RecordInput, OutboxDisposition, TargetRecord, TargetState, AttemptCommit}

module _ (sha256 : List ℕ → ℕ) where
  -- The second call, from what the first one did.
  again_from :
      (input : RecordInput) (db with_attempt with_target db' : Tables)
      (before after : List TargetRecord) (target : TargetRecord) (schedule : TargetState × Option ℕ)
      (decided : OutboxDisposition)
      → LeaseHeld (lease_of_input input) input.finished_at db
      → OneEach db
      → read_targets input.outbox.id db ≡ ok before
      → target_numbered input.target_ordinal before ≡ some target
      → outcome_target input target ≡ true
      → insert_attempt input db ≡ ok with_attempt
      → target_outcome_schedule input ≡ ok schedule
      → input.target_revision ≤ max_i64
      → with_target ≡ record with_attempt {
        targets =
            update_where
              (at_outbox input.outbox.id (outcome_target input))
              (on_target (write_outcome schedule.0 schedule.1 input.finished_at))
              with_attempt.targets;
      }
      → read_targets input.outbox.id with_target ≡ ok after
      → disposition sha256 input.outbox after ≡ ok decided
      → update_outbox_after_attempt input decided with_target ≡ ok db'
      → record_outcome sha256 input db' ≡ ok (committed input schedule.0 decided.state, db')
  unfolding record_outcome read_targets
  again_from input db with_attempt with_target db' before after target schedule decided held
        one_each read_b found hit inserted scheduled small is_with_target read_a decides closes =
      let (fits, is_with_attempt) = insert_attempt-ok input db with_attempt inserted in
      let rows_kept : with_attempt.targets ≡ db.targets =
        ap (λ (t : Tables). t.targets) is_with_attempt in
      let (read_o, targets_kept, attempts_kept, revision_small) =
        outbox_after sha256 input db with_target db' decided held one_each
          (ap (λ (t : Tables). t.outboxes) is_with_target
            ∙ ap (λ (t : Tables). t.outboxes) is_with_attempt)
          closes in
      let attempts_here : db'.attempts ≡ attempt_record input ∷ db.attempts =
        attempts_kept
        ∙ ap (λ (t : Tables). t.attempts) is_with_target
        ∙ ap (λ (t : Tables). t.attempts) is_with_attempt in
      let rows_of : List TargetRow → TxResult (List TargetRecord) =
        λ rows. decode_targets (take 33 (sort_targets (targets_under input.outbox.id rows))) in
      let read_a' =
        ap rows_of (
          sym (
            ap (λ (t : Tables). t.targets) is_with_target
            ∙ ap
                (update_where (at_outbox input.outbox.id (outcome_target input))
                  (on_target (write_outcome schedule.0 schedule.1 input.finished_at)))
                rows_kept))
        ∙ read_a in
      let numbered =
        target_after input schedule.0 schedule.1 input.finished_at input.outbox.id db.targets before
          after target read_b read_a' found hit in
      let result =
        reconciles sha256 input db' held.current target schedule after decided held.same read_o
          (ap rows_of targets_kept ∙ read_a) scheduled hit numbered decides revision_small small in
      then_ok _ _ (read_attempt-inserted input db' db.attempts attempts_here fits)
        (then_ok _ _ result refl)

  close_attempt-ok :
      (input : RecordInput) (schedule : TargetState × Option ℕ) (d db' : Tables)
      (commit : AttemptCommit)
      → close_attempt sha256 input schedule d ≡ ok (commit, db')
      → (after : List TargetRecord) × (decided : OutboxDisposition) × (read_targets input.outbox.id
            d
          ≡ ok after)
        × (disposition sha256 input.outbox after ≡ ok decided)
        × (update_outbox_after_attempt input decided d ≡ ok db')
        × (committed input schedule.0 decided.state ≡ commit)
  unfolding close_attempt
  close_attempt-ok input schedule d db' commit e =
      let (after, read, e1) = and_then-ok (read_targets input.outbox.id d) e in
      let (decided, decides, e2) = and_then-ok (disposition sha256 input.outbox after) e1 in
      let (last, closes, e3) = and_then-ok (update_outbox_after_attempt input decided d) e2 in
      let pair = ok-injective e3 in
      (
        after,
        decided,
        read,
        decides,
        closes ∙ ap (λ (o : AttemptCommit × Tables). ok o.1) pair,
        ap (λ (o : AttemptCommit × Tables). o.0) pair,
      )

  record_new-again :
      (input : RecordInput) (db db' : Tables) (commit : AttemptCommit)
      → OneEach db
      → record_new sha256 input db ≡ ok (commit, db')
      → record_outcome sha256 input db' ≡ ok (commit, db')
  unfolding record_new
  record_new-again input db db' commit one_each e =
      let (target, checks, e1) = and_then-ok (submitted_target input db) e in
      let (written, writes, e2) = and_then-ok (write_attempt input db) e1 in
      let (held, (before, read_b, found), hit) = submitted_target-ok input db target checks in
      let (with_attempt, inserted, scheduled, small, is_d) =
        write_attempt-ok input db written.1 written.0 writes in
      let (after, decided, read_a, decides, closes, same) =
        close_attempt-ok input written.0 written.1 db' commit e2 in
      again_from input db with_attempt written.1 db' before after target written.0 decided held
        one_each read_b found hit inserted scheduled small is_d read_a decides closes
      ∙ ap (λ c. ok (c, db')) same

  -- On tables with one publication under each id: once `record_outcome` has returned a commit,
  -- calling it again with the same input on the tables that it left returns the same commit and
  -- changes nothing.
  pub record_outcome-again :
      (input : RecordInput) (db db' : Tables) (commit : AttemptCommit)
      → OneEach db
      → record_outcome sha256 input db ≡ ok (commit, db')
      → record_outcome sha256 input db' ≡ ok (commit, db')
  unfolding record_outcome
  record_outcome-again input db db' commit one_each e =
      let (o, read, e1) = and_then-ok (read_attempt input.attempt_id db) e in
      elim (Option-cases o) [
        | inl none_yet ↦
            record_new-again input db db' commit one_each
              (subst (λ o. record_unless sha256 o input db ≡ ok (commit, db')) none_yet e1)
        | inr (existing, known) ↦
            let e2 = subst (λ o. record_unless sha256 o input db ≡ ok (commit, db')) known e1 in
            let (again, _, e3) = and_then-ok (reconcile_recorded sha256 input existing db) e2 in
            let kept : db ≡ db' = ap (λ (p : AttemptCommit × Tables). p.1) (ok-injective e3) in
            subst (λ d. record_outcome sha256 input d ≡ ok (commit, db')) kept e
      ]
