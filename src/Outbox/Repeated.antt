-- ===== src/Outbox/Repeated.antt =====
-- The repetition of a recorded outcome in src/publication_execution.rs is recognised.
use rhi.Outbox.Repeat.{
  same_identity_fields, disposition-same, same_attempt_self, disposition-validates,
}
use rhi.Outbox.Updates.{decode_targets-same, raw_targets-update, target_numbered-update}
use rhi.Outbox.Decisions.{target_outcome_schedule, disposition, same_outbox_identity}
use rhi.Outbox.Reads.{decode_targets, read_outbox, sort_targets, targets_under, read_targets}
use rhi.Outbox.Record.{reconcile_recorded}
use rhi.Outbox.Statements.{
  outcome_target, is_recorded, same_outbox, write_outcome, write_disposition, target_numbered,
  attempt_record, committed, target_state_tag, recorded_target, outbox_state_tag,
}
use rhi.Outbox.Store.{TargetRow, Tables, at_outbox, on_target}
use rhi.Base.{
  some, true, ok, refl, List, Option, ℕ, ◌≡◌, take, ◌=?◌, =?_iff, update_where, ==_self, ◌∙◌, ◌≤◌,
  max_i64, ap, sym, ok_or, arith, checked, ◌+◌, leb, max_u64, ◌==◌, ==_iff, then_ok, require, false,
  not, ◌||◌, ◌&&◌, refuse,
}
use rhi.Outbox.Types.{
  invariant, OutboxRecord, RecordInput, OutboxDisposition, TargetRecord, TargetState,
}

-- The target after the attempt, as it is read.
pub target_after :
    (input : RecordInput) (state : TargetState) (next : Option ℕ) (at : ℕ) (id : ℕ)
    (rows : List TargetRow) (before after : List TargetRecord) (target : TargetRecord)
    → decode_targets (take 33 (sort_targets (targets_under id rows))) ≡ ok before
    → decode_targets (
        take 33 (
          sort_targets (
            targets_under id (
              update_where
                (at_outbox id (outcome_target input))
                (on_target (write_outcome state next at))
                rows))))
      ≡ ok after
    → target_numbered input.target_ordinal before ≡ some target
    → outcome_target input target ≡ true
    → target_numbered input.target_ordinal after ≡ some (write_outcome state next at target)
target_after input state next at id rows before after target read read' found hit =
    let raw = decode_targets-same _ before read in
    let raw' = decode_targets-same _ after read' in
    let same =
      raw'
      ∙ raw_targets-update (outcome_target input) (write_outcome state next at) (λ t. refl) id rows
      ∙ ap (update_where (outcome_target input) (write_outcome state next at)) (sym raw) in
    ap (target_numbered input.target_ordinal) same
    ∙ target_numbered-update (outcome_target input) (write_outcome state next at) (λ t. refl)
        input.target_ordinal before target found hit

is_recorded-written :
    (input : RecordInput) (state : TargetState) (next : Option ℕ) (target : TargetRecord)
    → outcome_target input target ≡ true
    → is_recorded input (state, next) (write_outcome state next input.finished_at target) ≡ true
is_recorded-written input state next target hit =
    let self : (next =? next) ≡ true = (=?_iff next next).1 refl in
    rw (self, ==_self (target_state_tag state), ==_self input.finished_at) (ground arith)

same_outbox-parts :
    (a b : OutboxRecord)
    → same_outbox a b ≡ true
    → (same_outbox_identity a b ≡ true) × (a.revision ≡ b.revision)
unfolding same_outbox
same_outbox-parts a b h = (ground arith, ground arith)

written_same :
    (decided : OutboxDisposition) (at : ℕ) (a b : OutboxRecord)
    → same_outbox_identity (write_disposition decided at a) b ≡ same_outbox_identity a b
unfolding same_outbox_identity
written_same decided at a b = refl

recorded_target-is_recorded :
    (input : RecordInput) (expected : TargetState × Option ℕ) (t : TargetRecord)
    → is_recorded input expected t ≡ true
    → recorded_target input expected (some t) ≡ ok t
recorded_target-is_recorded input expected t h = rw h refl

next_fits : (n : ℕ) → n ≤ max_i64 → ok_or (checked (n + 1)) invariant ≡ ok (n + 1)
next_fits n small = let fits : leb (n + 1) max_u64 ≡ true = ground arith in rw fits refl

module _ (sha256 : List ℕ → ℕ) where
  -- What `reconcile_recorded` finds after `record_new`.
  pub reconciles :
      (input : RecordInput) (db' : Tables) (current : OutboxRecord) (target : TargetRecord)
      (schedule : TargetState × Option ℕ) (after : List TargetRecord) (decided : OutboxDisposition)
      → same_outbox current input.outbox ≡ true
      → read_outbox input.outbox.id db'
        ≡ ok (some (write_disposition decided input.finished_at current))
      → read_targets input.outbox.id db' ≡ ok after
      → target_outcome_schedule input ≡ ok schedule
      → outcome_target input target ≡ true
      → target_numbered input.target_ordinal after
        ≡ some (write_outcome schedule.0 schedule.1 input.finished_at target)
      → disposition sha256 input.outbox after ≡ ok decided
      → input.outbox.revision ≤ max_i64
      → input.target_revision ≤ max_i64
      → reconcile_recorded sha256 input (attempt_record input) db'
        ≡ ok (committed input schedule.0 decided.state)
  unfolding reconcile_recorded
  reconciles input db' current target schedule after decided same read_o read_t scheduled hit found
        decides small small' =
      let written = write_disposition decided input.finished_at current in
      let (identity, revisions) = same_outbox-parts current input.outbox same in
      let written_identity : same_outbox_identity written input.outbox ≡ true =
        written_same decided input.finished_at current input.outbox ∙ identity in
      let (ids, _, _, _, _) = same_identity_fields written input.outbox written_identity in
      let (validates, disposes) =
        disposition-same sha256 written input.outbox after written_identity in
      let advanced : (written.revision == input.outbox.revision + 1) ≡ true =
        (==_iff _ _).1 (ap (λ n. n + 1) revisions) in
      let recorded = is_recorded-written input schedule.0 schedule.1 target hit in
      let unchanged : (not (same_outbox_identity written input.outbox)
            || not (written.revision == input.outbox.revision + 1)
            || not (input.finished_at == input.finished_at)
            || false
            || false)
          ≡ false =
        rw (written_identity, advanced, ==_self input.finished_at) refl in
      let decided_same : (outbox_state_tag decided.state == outbox_state_tag decided.state
            && decided.next_attempt =? decided.next_attempt)
          ≡ true =
        rw
          (
            ==_self (outbox_state_tag decided.state),
            (=?_iff decided.next_attempt decided.next_attempt).1 refl,
          )
          refl in
      then_ok _ _ (ap (λ b. require b invariant) (same_attempt_self (attempt_record input))) (
        then_ok _ _ read_o (
          then_ok _ _ (next_fits input.outbox.revision small) (
            then_ok _ _ (ap (λ b. refuse b invariant) unchanged) (
              then_ok _ _ (ap (λ id. read_targets id db') ids ∙ read_t) (
                then_ok _ _
                  (validates ∙ disposition-validates sha256 input.outbox after decided decides)
                  (then_ok _ _ scheduled (
                    then_ok _ _ (next_fits input.target_revision small') (
                      then_ok _ _
                        (ap (recorded_target input schedule) found
                          ∙ recorded_target-is_recorded input schedule _ recorded)
                        (then_ok _ _ (disposes ∙ decides) (
                          then_ok _ _ (ap (λ b. require b invariant) decided_same) (
                            ap
                              (λ id. ok (record (committed input schedule.0 decided.state) {
                                outbox_id = id;
                              }))
                              ids)))))))))))
