-- ===== src/Outbox/Recorded.antt =====
-- What the statements of `record_outcome` in src/publication_execution.rs leave in the tables.
use rhi.Outbox.Decisions.{target_outcome_schedule}
use rhi.Outbox.Written.{validate_lease-LeaseHeld, LeaseHeld, one_changed-ok, update_targets-ok}
use rhi.Outbox.Repeat.{i64_time-ok}
use rhi.Outbox.Store.{Tables, update_targets, at_outbox, on_target}
use rhi.Outbox.Reads.{read_targets}
use rhi.Outbox.Record.{submitted_target, write_attempt}
use rhi.Outbox.Statements.{
  optional_i64, is_submitted_target, i64_time, outcome_target, validate_lease, lease_of_input,
  target_numbered, insert_attempt, write_outcome, one_changed,
}
use rhi.Base.{
  none, some, true, false, ok, List, Option, ◌==◌, ℕ, ◌≡◌, not, sym, ok-injective, ◌||◌,
  and_then-ok, ◌=?◌, arith, ◌∙◌, ap, ok_or, ok_or-ok, refuse, update_where, ◌≤◌, find-Contains,
  max_i64, refuse-ok, subst,
}
use rhi.Outbox.Types.{lease_lost, invariant, RecordInput, TargetRecord, TargetState}

optional_i64-same : (o next : Option ℕ) → optional_i64 o ≡ ok next → next ≡ o
optional_i64-same none next e = sym (ok-injective e)
optional_i64-same (some t) next e =
    let (u, is_u, e1) = and_then-ok (i64_time t) e in
    sym (ok-injective e1) ∙ ap some (i64_time-ok t u is_u).0

outcome_target-passed :
    (input : RecordInput) (t : TargetRecord)
    → (t.ordinal == input.target_ordinal) ≡ true
    → (not (is_submitted_target t)
        || not (t.revision == input.target_revision)
        || not (t.attempt_count == input.attempt_number)
        || not (t.last_attempt_id =? some input.attempt_id)
        || not (t.updated_at == input.started_at))
      ≡ false
    → outcome_target input t ≡ true
outcome_target-passed input t numbered passed = ground arith

abbrev written_targets : RecordInput → TargetState → Option ℕ → ℕ → Tables → Tables
written_targets input state next at db = record db {
  targets =
      update_where (at_outbox input.outbox.id (outcome_target input))
        (on_target (write_outcome state next at)) db.targets;
}

pub submitted_target-ok :
    (input : RecordInput) (db : Tables) (target : TargetRecord)
    → submitted_target input db ≡ ok target
    → LeaseHeld (lease_of_input input) input.finished_at db
      × ((before : List TargetRecord) × (read_targets input.outbox.id db ≡ ok before)
          × (target_numbered input.target_ordinal before ≡ some target))
      × (outcome_target input target ≡ true)
unfolding submitted_target
submitted_target-ok input db target e =
    let (_, valid, e1) =
      and_then-ok (validate_lease (lease_of_input input) input.finished_at true db) e in
    let (before, read, e2) = and_then-ok (read_targets input.outbox.id db) e1 in
    let (t, is_t, e3) =
      and_then-ok (ok_or (target_numbered input.target_ordinal before) invariant) e2 in
    let (_, passes, e4) =
      and_then-ok
        (refuse
          (not (is_submitted_target t)
            || not (t.revision == input.target_revision)
            || not (t.attempt_count == input.attempt_number)
            || not (t.last_attempt_id =? some input.attempt_id)
            || not (t.updated_at == input.started_at))
          lease_lost)
        e3 in
    let found = ok_or-ok (target_numbered input.target_ordinal before) invariant is_t in
    let same = ok-injective e4 in
    let numbered = (find-Contains (λ s. s.ordinal == input.target_ordinal) before t found).1 in
    (
      validate_lease-LeaseHeld (lease_of_input input) input.finished_at db valid,
      (before, read, found ∙ ap some same),
      subst (λ z. outcome_target input z ≡ true) same
          (outcome_target-passed input t numbered (refuse-ok _ lease_lost passes)),
    )

written-same :
    (input : RecordInput) (schedule : TargetState × Option ℕ) (with_attempt d : Tables)
    (next : Option ℕ) (at : ℕ) (changed : ℕ × Tables)
    → optional_i64 schedule.1 ≡ ok next
    → i64_time input.finished_at ≡ ok at
    → update_targets input.outbox.id
        (outcome_target input)
        (write_outcome schedule.0 next at)
        with_attempt
      ≡ ok changed
    → one_changed changed ≡ ok d
    → d ≡ written_targets input schedule.0 schedule.1 input.finished_at with_attempt
written-same input schedule with_attempt d next at changed is_next is_at updates one =
    sym (one_changed-ok changed d one).1
    ∙ update_targets-ok input.outbox.id (outcome_target input) (write_outcome schedule.0 next at)
        with_attempt changed.1 changed.0 updates
    ∙ ap (λ n. written_targets input schedule.0 n at with_attempt)
        (optional_i64-same schedule.1 next is_next)
    ∙ ap (λ t. written_targets input schedule.0 schedule.1 t with_attempt)
        (i64_time-ok input.finished_at at is_at).0

pub write_attempt-ok :
    (input : RecordInput) (db d : Tables) (schedule : TargetState × Option ℕ)
    → write_attempt input db ≡ ok (schedule, d)
    → (with_attempt : Tables) × (insert_attempt input db ≡ ok with_attempt)
      × (target_outcome_schedule input ≡ ok schedule)
      × (input.target_revision ≤ max_i64)
      × (d ≡ written_targets input schedule.0 schedule.1 input.finished_at with_attempt)
unfolding write_attempt
write_attempt-ok input db d schedule e =
    let (with_attempt, inserted, e1) = and_then-ok (insert_attempt input db) e in
    let (planned, scheduled, e2) = and_then-ok (target_outcome_schedule input) e1 in
    let (next, is_next, e3) = and_then-ok (optional_i64 planned.1) e2 in
    let (at, is_at, e4) = and_then-ok (i64_time input.finished_at) e3 in
    let (revision, is_revision, e5) = and_then-ok (i64_time input.target_revision) e4 in
    let (changed, updates, e6) =
      and_then-ok
        (update_targets input.outbox.id (outcome_target input) (write_outcome planned.0 next at)
          with_attempt)
        e5 in
    let (last, one, e7) = and_then-ok (one_changed changed) e6 in
    let pair = ok-injective e7 in
    let same : planned ≡ schedule = ap (λ (o : (TargetState × Option ℕ) × Tables). o.0) pair in
    let same_d : last ≡ d = ap (λ (o : (TargetState × Option ℕ) × Tables). o.1) pair in
    (
      with_attempt,
      inserted,
      scheduled ∙ ap ok same,
      (i64_time-ok input.target_revision revision is_revision).1,
      sym same_d
          ∙ written-same input planned with_attempt last next at changed is_next is_at updates one
          ∙ ap
              (λ (s : TargetState × Option ℕ).
                written_targets input s.0 s.1 input.finished_at with_attempt)
              same,
    )
