-- ===== src/Outbox/Repeat.antt =====
-- `record_outcome` of src/publication_execution.rs, repeated.
use rhi.Outbox.Updates.{count_hit, all-find, find-update_where}
use rhi.Outbox.Written.{LeaseHeld, update_outboxes-ok, one_changed-ok}
use rhi.Outbox.Decisions.{same_outbox_identity, disposition, validate_targets}
use rhi.Outbox.Reads.{decode_outbox, read_attempt, decode_attempt, read_outbox, decode_found}
use rhi.Outbox.Statements.{
  same_attempt, update_outbox_after_attempt, attempt_record, lease_of_input, write_disposition,
  i64_time, optional_i64, outbox_of_lease,
}
use rhi.Outbox.Store.{Tables, outbox_checks, attempt_checks, update_outboxes, outbox_guard}
use rhi.Base.{
  none, some, true, ok, refl, ◌∷◌, List, ℕ, ◌≡◌, arith, count, and_then-ok, ◌==◌, ==_self, ◌≤◌,
  max_i64, inl, inr, find, all, not, ◌||◌, ◌&&◌, update_where, sym, Bool-cases, ◌∙◌, subst, &&-left,
  ap,
}
use rhi.Outbox.Types.{OutboxRecord, AttemptRecord, RecordInput, OutboxDisposition, TargetRecord}

-- The primary key of `publication_outbox`.
abbrev pub OneEach : Tables → Type 0
OneEach db = (id : ℕ) → count (λ r. r.id == id) db.outboxes ≤ 1

pub same_attempt_self : (r : AttemptRecord) → same_attempt r r ≡ true
unfolding same_attempt
same_attempt_self r = ground arith

pub read_attempt-inserted :
    (input : RecordInput) (db : Tables) (attempts : List AttemptRecord)
    → db.attempts ≡ attempt_record input ∷ attempts
    → attempt_checks (attempt_record input) ≡ true
    → read_attempt input.attempt_id db ≡ ok (some (attempt_record input))
unfolding read_attempt decode_attempt attempt_checks
read_attempt-inserted input db attempts here fits =
    rw (here, ==_self input.attempt_id) (ground arith)

-- An outbox that is written as the constraints allow decodes.
decode_outbox-checks :
    (r : OutboxRecord) → outbox_checks r ≡ true → r.lease_owner ≡ none → decode_outbox r ≡ ok r
unfolding decode_outbox outbox_checks
decode_outbox-checks r fits free = ground arith

-- What an outbox is found to be decides with the targets what becomes of it.
pub same_identity_fields :
    (a b : OutboxRecord)
    → same_outbox_identity a b ≡ true
    → (a.id ≡ b.id)
      × (a.target_count ≡ b.target_count)
      × (a.required_target_count ≡ b.required_target_count)
      × (a.target_set_sha256 ≡ b.target_set_sha256)
      × (a.max_attempts ≡ b.max_attempts)
unfolding same_outbox_identity
same_identity_fields a b h = (ground arith, ground arith, ground arith, ground arith, ground arith)

pub i64_time-ok : (t u : ℕ) → i64_time t ≡ ok u → (u ≡ t) × (t ≤ max_i64)
i64_time-ok t u e = (ground arith, ground arith)

module _ (sha256 : List ℕ → ℕ) where
  pub disposition-same :
      (a b : OutboxRecord) (targets : List TargetRecord)
      → same_outbox_identity a b ≡ true
      → (validate_targets sha256 a targets ≡ validate_targets sha256 b targets)
        × (disposition sha256 a targets ≡ disposition sha256 b targets)
  unfolding validate_targets disposition
  disposition-same a b targets h =
      let (_, counts, required, sets, limits) = same_identity_fields a b h in
      (rw (counts, required, sets) refl, rw (counts, required, sets, limits) refl)

  pub disposition-validates :
      (r : OutboxRecord) (targets : List TargetRecord) (decided : OutboxDisposition)
      → disposition sha256 r targets ≡ ok decided
      → validate_targets sha256 r targets ≡ ok tt
  unfolding disposition
  disposition-validates r targets decided e = (and_then-ok (validate_targets sha256 r targets) e).1

  -- On one outbox each, the UPDATE takes the outbox of the lease, and it is read as written.
  outbox_written :
      (input : RecordInput) (decided : OutboxDisposition) (at : ℕ) (rows : List OutboxRecord)
      (current : OutboxRecord)
      → count (λ r. r.id == input.outbox.id) rows ≤ 1
      → find (λ r. r.id == input.outbox.id) rows ≡ some current
      → all
          (λ r.
            not (outbox_of_lease input r)
            || (outbox_checks (write_disposition decided at r)
                && outbox_guard r (write_disposition decided at r)))
          rows
        ≡ true
      → count (outbox_of_lease input) rows ≡ 1
      → decode_found decode_outbox (
          find
            (λ r. r.id == input.outbox.id)
            (update_where (outbox_of_lease input) (write_disposition decided at) rows))
        ≡ ok (some (write_disposition decided at current))
  outbox_written input decided at rows current once found fits one =
      elim (Bool-cases (outbox_of_lease input current)) [
        | inr miss ↦
            let fewer =
              count_hit (outbox_of_lease input) (λ r. r.id == input.outbox.id) (λ s h. ground arith)
                rows current found miss in
            absurd (omega arith)
        | inl hit ↦
            let written = write_disposition decided at current in
            let checked_row = all-find _ (λ r. r.id == input.outbox.id) rows current fits found in
            let both : (outbox_checks written && outbox_guard current written) ≡ true =
              rw hit at checked_row in
            rw
              (
                find-update_where (outbox_of_lease input) (λ r. r.id == input.outbox.id)
                    (write_disposition decided at) rows current (λ s. refl) found hit,
                decode_outbox-checks written (&&-left _ _ both) refl,
              )
              refl
      ]

  -- The outbox after the attempt, as it is read.
  pub outbox_after :
      (input : RecordInput) (db d db' : Tables) (decided : OutboxDisposition)
      (held : LeaseHeld (lease_of_input input) input.finished_at db)
      → OneEach db
      → d.outboxes ≡ db.outboxes
      → update_outbox_after_attempt input decided d ≡ ok db'
      → (read_outbox input.outbox.id db'
          ≡ ok (some (write_disposition decided input.finished_at held.current)))
        × (db'.targets ≡ d.targets)
        × (db'.attempts ≡ d.attempts)
        × (input.outbox.revision ≤ max_i64)
  unfolding update_outbox_after_attempt read_outbox
  outbox_after input db d db' decided held one_each same e =
      let (_, _, e1) = and_then-ok (optional_i64 decided.next_attempt) e in
      let (at, is_at, e2) = and_then-ok (i64_time input.finished_at) e1 in
      let (revision, is_revision, e3) = and_then-ok (i64_time input.outbox.revision) e2 in
      let (_, _, e4) = and_then-ok (i64_time input.expires_at) e3 in
      let (changed, updates, e5) =
        and_then-ok (update_outboxes (outbox_of_lease input) (write_disposition decided at) d) e4 in
      let (fits, counted, is_t) =
        update_outboxes-ok (outbox_of_lease input) (write_disposition decided at) d changed.1
          changed.0 updates in
      let (one, is_db') = one_changed-ok changed db' e5 in
      let whole : record d {
        outboxes = update_where (outbox_of_lease input) (write_disposition decided at) d.outboxes;
      }
          ≡ db' =
        sym is_t ∙ is_db' in
      let read =
        outbox_written input decided at d.outboxes held.current
          (subst (λ rows. count (λ r. r.id == input.outbox.id) rows ≤ 1) (sym same)
            (one_each input.outbox.id))
          (ap (find (λ r. r.id == input.outbox.id)) same ∙ held.found) fits (sym counted ∙ one) in
      (
        subst
            (λ t.
              read_outbox input.outbox.id t
              ≡ ok (some (write_disposition decided input.finished_at held.current)))
            whole
            (read
              ∙ ap (λ t. ok (some (write_disposition decided t held.current)))
                  (i64_time-ok input.finished_at at is_at).0),
        ap (λ (t : Tables). t.targets) (sym whole),
        ap (λ (t : Tables). t.attempts) (sym whole),
        (i64_time-ok input.outbox.revision revision is_revision).1,
      )
