-- ===== src/Outbox/Store.antt =====
-- The tables `publication_outbox`, `publication_targets` and `publication_attempts` of
-- src/state_catalog.rs, as rows of the records that src/publication_execution.rs decodes. An UPDATE or
-- INSERT that breaks a constraint aborts, which the code reports as `Storage`. The columns `event_id`
-- and `result_code` are left: no statement here changes the first, and the second repeats the outcome.
use rhi.Attempt.Plan.{id_text}
use rhi.Outbox.Decisions.{same_outbox_identity, valid_outbox_shape, is_accepted}
use rhi.Base.{
  true, false, ok, err, ◌∷◌, Bool, List, Result, ℕ, between, if◌then◌else◌, leb, ◌&&◌, ◌==◌, all,
  max_i64, not, same_bytes, ◌+◌, any, iff, is_none_or, ◌||◌, count, is_none, update_where,
}
use rhi.Outbox.Types.{
  pending, leased, blocked, storage, OutboxRecord, TargetRecord, AttemptRecord, OutboxError,
  OutboxState,
}

-- A row of `publication_targets`: the target under its outbox.
pub record TargetRow : Type 0 where
  pub outbox_id : ℕ
  pub target : TargetRecord

pub record Tables : Type 0 where
  pub outboxes : List OutboxRecord
  pub targets : List TargetRow
  pub attempts : List AttemptRecord

abbrev pub TxResult : Type 0 → Type 0
TxResult A = Result OutboxError A

unfoldable pub outbox_checks : OutboxRecord → Bool
unfolding valid_outbox_shape
outbox_checks r =
    between 1 32 r.target_count
    && leb r.required_target_count r.target_count
    && between 1 100 r.max_attempts
    && between 1 60000 r.initial_backoff_ms
    && between 1 3600000 r.maximum_backoff_ms
    && between 100 30000 r.attempt_deadline_ms
    && between 1 max_i64 r.revision
    && between r.created_at max_i64 r.updated_at
    && leb r.initial_backoff_ms r.maximum_backoff_ms
    && valid_outbox_shape r.state r.next_attempt r.lease_owner r.lease_expires
    && is_none_or (λ t. leb t max_i64) r.next_attempt
    && is_none_or (λ t. leb t max_i64) r.lease_expires

abbrev outbox_move : OutboxState → OutboxState → Bool
outbox_move pending leased = true
outbox_move pending blocked = true
outbox_move leased _ = true
outbox_move blocked pending = true
outbox_move _ _ = false

unfoldable pub outbox_guard : OutboxRecord → OutboxRecord → Bool
unfolding same_outbox_identity
outbox_guard old new =
    same_outbox_identity new old
    && new.revision == old.revision + 1
    && leb old.updated_at new.updated_at
    && outbox_move old.state new.state

unfoldable pub target_checks : TargetRecord → Bool
target_checks t =
    leb t.ordinal 31
    && id_text t.relay_id
    && between 1 max_i64 t.revision
    && leb t.attempt_count 100
    && is_none_or (λ next. leb next max_i64) t.next_attempt
    && leb t.updated_at max_i64
    && iff (t.attempt_count == 0) (is_none t.last_attempt_id)

unfoldable pub target_guard : TargetRecord → TargetRecord → Bool
target_guard old new =
    new.ordinal == old.ordinal
    && same_bytes new.relay_id old.relay_id
    && iff new.required old.required
    && new.revision == old.revision + 1
    && leb old.attempt_count new.attempt_count
    && leb new.attempt_count (old.attempt_count + 1)
    && leb old.updated_at new.updated_at
    && not (is_accepted old.state)

unfoldable pub attempt_checks : AttemptRecord → Bool
attempt_checks r =
    leb r.target_ordinal 31
    && between 1 100 r.attempt_number
    && leb r.started_at r.finished_at
    && leb r.finished_at max_i64

-- `UPDATE publication_outbox SET f WHERE p`, with the number of rows affected.
unfoldable pub update_outboxes :
    (OutboxRecord → Bool) → (OutboxRecord → OutboxRecord) → Tables → TxResult (ℕ × Tables)
update_outboxes p f db =
    if all (λ r. not (p r) || (outbox_checks (f r) && outbox_guard r (f r))) db.outboxes
    then ok (count p db.outboxes, record db { outboxes = update_where p f db.outboxes })
    else err storage

-- `UPDATE publication_targets SET f WHERE outbox_id = id AND p`.
abbrev pub at_outbox : ℕ → (TargetRecord → Bool) → TargetRow → Bool
at_outbox id p row = row.outbox_id == id && p row.target

abbrev pub on_target : (TargetRecord → TargetRecord) → TargetRow → TargetRow
on_target f row = record { outbox_id = row.outbox_id; target = f row.target }

unfoldable pub update_targets :
    ℕ → (TargetRecord → Bool) → (TargetRecord → TargetRecord) → Tables → TxResult (ℕ × Tables)
update_targets id p f db =
    if all
      (λ row.
        not (at_outbox id p row)
        || (target_checks (f row.target) && target_guard row.target (f row.target)))
      db.targets
    then ok (
      count (at_outbox id p) db.targets,
      record db { targets = update_where (at_outbox id p) (on_target f) db.targets },
    )
    else err storage

-- `INSERT INTO publication_attempts`: the checks, both keys and the foreign key.
unfoldable pub insert_attempt_row : AttemptRecord → Tables → TxResult (ℕ × Tables)
insert_attempt_row r db =
    if attempt_checks r
      && not (any (λ s. s.attempt_id == r.attempt_id) db.attempts)
      && not (
          any
            (λ s.
              s.outbox_id == r.outbox_id
              && s.target_ordinal == r.target_ordinal
              && s.attempt_number == r.attempt_number)
            db.attempts)
      && any (λ row. row.outbox_id == r.outbox_id && row.target.ordinal == r.target_ordinal)
          db.targets
    then ok (1, record db { attempts = r ∷ db.attempts })
    else err storage
