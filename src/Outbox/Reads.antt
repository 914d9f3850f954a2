-- ===== src/Outbox/Reads.antt =====
-- The readers of src/publication_execution.rs: rows by their keys, with the checks of the decoders.
-- Every decoder's error is `Invariant`; the types of the columns are those of the records.
use rhi.Attempt.Plan.{id_text}
use rhi.Outbox.Store.{TxResult, Tables, TargetRow}
use rhi.Outbox.Decisions.{valid_outbox_shape}
use rhi.Base.{
  [], none, some, ok, ◌∷◌, List, Result, ℕ, Option, if◌then◌else◌, ◌>>=◌, ◌>>◌, find, ltb, require,
  take, ◌==◌, between, leb, ◌&&◌, max_i64, not, iff, ◌=?◌, is_none, is_none_or,
}
use rhi.Outbox.Types.{invariant, OutboxRecord, TargetRecord, AttemptRecord}

unfoldable pub decode_outbox : OutboxRecord → TxResult OutboxRecord
unfolding valid_outbox_shape
decode_outbox r = do
  require
      (between 1 32 r.target_count
        && leb r.required_target_count r.target_count
        && between 1 100 r.max_attempts
        && between 1 60000 r.initial_backoff_ms
        && between 1 3600000 r.maximum_backoff_ms
        && not (ltb r.maximum_backoff_ms r.initial_backoff_ms)
        && between 100 30000 r.attempt_deadline_ms
        && not (r.lease_owner =? some 0)
        && is_none_or (λ t. leb t max_i64) r.lease_expires
        && is_none_or (λ t. leb t max_i64) r.next_attempt
        && valid_outbox_shape r.state r.next_attempt r.lease_owner r.lease_expires
        && between 1 max_i64 r.revision
        && leb r.created_at max_i64
        && leb r.updated_at max_i64)
      invariant
  ok r

unfoldable pub decode_target : TargetRecord → TxResult TargetRecord
decode_target t = do
  require
      (leb t.ordinal 31
        && id_text t.relay_id
        && leb t.attempt_count 100
        && iff (t.attempt_count == 0) (is_none t.last_attempt_id)
        && between 1 max_i64 t.revision
        && is_none_or (λ next. leb next max_i64) t.next_attempt
        && leb t.updated_at max_i64)
      invariant
  ok t

unfoldable pub decode_attempt : AttemptRecord → TxResult AttemptRecord
decode_attempt r = do
  require
      (leb r.target_ordinal 31
        && between 1 100 r.attempt_number
        && leb r.started_at max_i64
        && leb r.finished_at max_i64)
      invariant
  ok r

abbrev pub decode_found {ℓ} :
    {A : Type 0} {E : Type ℓ} → (A → Result E A) → Option A → Result E (Option A)
decode_found decode none = ok none
decode_found decode (some row) = do found ← decode row; ok (some found)

unfoldable pub read_outbox : ℕ → Tables → TxResult (Option OutboxRecord)
read_outbox id db = decode_found decode_outbox (find (λ r. r.id == id) db.outboxes)

unfoldable pub read_attempt : ℕ → Tables → TxResult (Option AttemptRecord)
read_attempt id db = decode_found decode_attempt (find (λ r. r.attempt_id == id) db.attempts)

abbrev pub targets_under : ℕ → List TargetRow → List TargetRecord
targets_under id [] = []
targets_under id (row ∷ rows) =
    let rest = targets_under id rows in if row.outbox_id == id then row.target ∷ rest else rest

-- `ORDER BY target_ordinal`.
abbrev pub insert_target : TargetRecord → List TargetRecord → List TargetRecord
insert_target t [] = t ∷ []
insert_target t (next ∷ rest) =
    let behind = insert_target t rest in
    if ltb next.ordinal t.ordinal then next ∷ behind else t ∷ next ∷ rest

abbrev pub sort_targets : List TargetRecord → List TargetRecord
sort_targets [] = []
sort_targets (t ∷ targets) = insert_target t (sort_targets targets)

abbrev pub decode_targets : List TargetRecord → TxResult (List TargetRecord)
decode_targets [] = ok []
decode_targets (row ∷ rows) = do
  target ← decode_target row
  targets ← decode_targets rows
  ok (target ∷ targets)

unfoldable pub read_targets : ℕ → Tables → TxResult (List TargetRecord)
read_targets id db = decode_targets (take 33 (sort_targets (targets_under id db.targets)))
