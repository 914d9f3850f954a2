-- ===== src/Trade/Checkpoints.antt =====
-- The checkpoints and dirty generations of src/source_ingest.rs: the reads, and the writes that are
-- fenced by what was read. A column that is not negative has a value in the schema's range.
use rhi.Replay.Types.{Cursor}
use rhi.Attempt.Identity.{source_selector}
use rhi.Base.{
  none, some, ok, err, ◌∷◌, Bool, List, Option, Result, ℕ, find, if◌then◌else◌, not, same_bytes,
  ◌&&◌, ◌+◌, ◌==◌, ◌>>=◌, all, between, is_some, leb, ◌>>◌, ◌||◌, count, max_i64, require, ok_or,
  update_where, keep, checked,
}
use rhi.Trade.Types.{
  CheckpointRow, GenerationRow, TradeTables, SourceError, generation_conflict, storage, Checkpoint,
  DirtyState, checkpoint_checks, guard_checkpoint, generation_checks, guard_generation,
}

abbrev pub SourceOperation : Type 0 → Type 0
SourceOperation A = Result SourceError A

abbrev pub at_scope : List ℕ → ℕ → ℕ → CheckpointRow → Bool
at_scope source_id policy trade_id r =
    same_bytes r.source_id source_id
    && same_bytes r.selector_id source_selector
    && r.evidence_policy_sha256 == policy
    && r.trade_id == trade_id

abbrev pub of_trade : ℕ → GenerationRow → Bool
of_trade trade_id r = r.trade_id == trade_id

-- `positive_i64_u64` and `nonnegative_i64_u64`.
abbrev pub positive : ℕ → SourceOperation ℕ
positive value = if between 1 max_i64 value then ok value else err storage

abbrev pub nonnegative : ℕ → SourceOperation ℕ
nonnegative value = if leb value max_i64 then ok value else err storage

-- `i64::try_from`.
abbrev pub as_i64 : ℕ → SourceOperation ℕ
as_i64 value = if leb value max_i64 then ok value else err storage

abbrev pub decode_checkpoint : Option CheckpointRow → SourceOperation (Option Checkpoint)
decode_checkpoint none = ok none
decode_checkpoint (some row) = do
  created_at ← nonnegative row.cursor_created_at_unix_s
  revision ← positive row.revision
  completed_at ← positive row.completed_at_unix_s
  ok (
      some (record {
        cursor = record { created_at_unix_seconds = created_at; event_id = row.cursor_event_id };
        revision = revision;
        completed_at_unix_s = completed_at;
      }))

unfoldable pub read_checkpoint : List ℕ → ℕ → ℕ → TradeTables → SourceOperation (Option Checkpoint)
read_checkpoint source_id policy trade_id db =
    decode_checkpoint (find (at_scope source_id policy trade_id) db.checkpoints)

abbrev pub decode_dirty : Option GenerationRow → SourceOperation (Option DirtyState)
decode_dirty none = ok none
decode_dirty (some row) = do
  generation ← positive row.generation
  updated_at ← nonnegative row.updated_at_unix_s
  ok (
      some (record {
        generation = generation;
        policy = row.evidence_policy_sha256;
        updated_at_unix_s = updated_at;
      }))

unfoldable pub read_dirty : ℕ → TradeTables → SourceOperation (Option DirtyState)
read_dirty trade_id db = decode_dirty (find (of_trade trade_id) db.generations)

-- INSERT_CHECKPOINT_SQL and UPDATE_CHECKPOINT_SQL, with the number of rows affected.
unfoldable pub insert_checkpoint_row :
    CheckpointRow → TradeTables → SourceOperation (ℕ × TradeTables)
insert_checkpoint_row r db =
    if checkpoint_checks r
      && not
          (is_some (find (at_scope r.source_id r.evidence_policy_sha256 r.trade_id) db.checkpoints))
    then ok (1, record db { checkpoints = r ∷ db.checkpoints })
    else err storage

abbrev pub checkpoint_fits :
    (CheckpointRow → Bool) → (CheckpointRow → CheckpointRow) → CheckpointRow → Bool
checkpoint_fits p f r = not (p r) || (checkpoint_checks (f r) && guard_checkpoint r (f r))

unfoldable pub update_checkpoints :
    (CheckpointRow → Bool)
    → (CheckpointRow → CheckpointRow)
    → TradeTables
    → SourceOperation (ℕ × TradeTables)
update_checkpoints p f db =
    if all (checkpoint_fits p f) db.checkpoints
    then ok (count p db.checkpoints, record db { checkpoints = update_where p f db.checkpoints })
    else err storage

-- INSERT_DIRTY_SQL and UPDATE_DIRTY_SQL.
unfoldable pub insert_generation : GenerationRow → TradeTables → SourceOperation (ℕ × TradeTables)
insert_generation r db =
    if generation_checks r && not (is_some (find (of_trade r.trade_id) db.generations))
    then ok (1, record db { generations = r ∷ db.generations })
    else err storage

abbrev pub generation_fits :
    (GenerationRow → Bool) → (GenerationRow → GenerationRow) → GenerationRow → Bool
generation_fits p f r = not (p r) || (generation_checks (f r) && guard_generation r (f r))

unfoldable pub update_generations :
    (GenerationRow → Bool)
    → (GenerationRow → GenerationRow)
    → TradeTables
    → SourceOperation (ℕ × TradeTables)
update_generations p f db =
    if all (generation_fits p f) db.generations
    then ok (count p db.generations, record db { generations = update_where p f db.generations })
    else err storage

-- `if result.rows_affected() != 1 { return Err(GenerationConflict) }`.
abbrev pub one_written : ℕ × TradeTables → SourceOperation TradeTables
one_written (rows, db) = if rows == 1 then ok db else err generation_conflict

abbrev pub next_generation : ℕ → ℕ → GenerationRow → GenerationRow
next_generation policy updated_at r = record r {
  generation = r.generation + 1;
  evidence_policy_sha256 = policy;
  updated_at_unix_s = updated_at;
}

abbrev pub at_generation : ℕ → ℕ → GenerationRow → Bool
at_generation trade_id generation r = r.trade_id == trade_id && r.generation == generation

unfoldable pub advance_dirty_generation :
    ℕ → ℕ → ℕ → Option DirtyState → TradeTables → SourceOperation (ℕ × TradeTables)
advance_dirty_generation trade_id policy updated_at_unix_s none db = do
  updated_at ← as_i64 updated_at_unix_s
  rows ←
      insert_generation
        (record {
          trade_id = trade_id;
          generation = 1;
          evidence_policy_sha256 = policy;
          updated_at_unix_s = updated_at;
        })
        db
  db' ← one_written rows
  ok (1, db')
advance_dirty_generation trade_id policy updated_at_unix_s (some current) db = do
  updated_at ← as_i64 updated_at_unix_s
  require (current.policy == policy && leb current.updated_at_unix_s updated_at_unix_s)
      generation_conflict
  next ← ok_or (keep (λ value. leb value max_i64) (checked (current.generation + 1))) storage
  generation ← as_i64 current.generation
  rows ←
      update_generations (at_generation trade_id generation) (next_generation policy updated_at) db
  db' ← one_written rows
  ok (next, db')

abbrev pub next_checkpoint : ℕ → ℕ → ℕ → CheckpointRow → CheckpointRow
next_checkpoint created_at event_id completed_at r = record r {
  cursor_created_at_unix_s = created_at;
  cursor_event_id = event_id;
  revision = r.revision + 1;
  completed_at_unix_s = completed_at;
}

abbrev pub at_revision : List ℕ → ℕ → ℕ → ℕ → CheckpointRow → Bool
at_revision source_id policy trade_id revision r =
    at_scope source_id policy trade_id r && r.revision == revision

-- The `match` on the checkpoint that was read.
unfoldable pub checkpoint_statement :
    List ℕ → ℕ → ℕ → Option Checkpoint → ℕ → ℕ → ℕ → TradeTables → SourceOperation (ℕ × TradeTables)
checkpoint_statement source_id policy trade_id none created_at event_id completed_at db =
    insert_checkpoint_row
      (record {
        source_id = source_id;
        selector_id = source_selector;
        evidence_policy_sha256 = policy;
        trade_id = trade_id;
        cursor_created_at_unix_s = created_at;
        cursor_event_id = event_id;
        revision = 1;
        completed_at_unix_s = completed_at;
      })
      db
checkpoint_statement source_id policy trade_id (some current) created_at event_id completed_at db =
    as_i64 current.revision >>= λ revision.
    update_checkpoints (at_revision source_id policy trade_id revision)
      (next_checkpoint created_at event_id completed_at) db

unfoldable pub write_checkpoint :
    List ℕ → ℕ → ℕ → Option Checkpoint → Cursor → ℕ → TradeTables → SourceOperation TradeTables
write_checkpoint source_id policy trade_id current next completed_at_unix_s db = do
  created_at ← as_i64 next.created_at_unix_seconds
  completed_at ← as_i64 completed_at_unix_s
  rows ←
      checkpoint_statement source_id policy trade_id current created_at next.event_id completed_at
        db
  one_written rows
