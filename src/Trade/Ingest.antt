-- ===== src/Trade/Ingest.antt =====
-- `commit_source_result` of src/source_ingest.rs: the result of one fetch, committed in a transaction
-- that is fenced by the checkpoint and the dirty generation read before the fetch.
use rhi.Replay.Canonical.{is_lt, compare_cursor}
use rhi.Trade.Persist.{persist}
use rhi.Replay.Commit.{is_complete}
use rhi.Replay.Types.{Cursor}
use rhi.Replay.Finish.{AdmittedEvent, from_admitted}
use rhi.Attempt.Types.{SourceCompletion}
use rhi.Base.{
  [], none, some, true, false, ok, err, ◌∷◌, List, Option, ℕ, Bool, if◌then◌else◌, ◌==◌, ◌>>=◌, leb,
  not, ok_or, ◌&&◌, ◌>>◌, ◌||◌, map_err, require, length, ◌+◌, bit, is_some_and, is_none_or,
}
use rhi.Trade.Checkpoints.{
  read_dirty, SourceOperation, read_checkpoint, write_checkpoint, advance_dirty_generation,
}
use rhi.Trade.Types.{
  TradeTables, generation_conflict, persistence, storage, Checkpoint, DirtyState, Observation,
}

pub record InitialState : Type 0 where
  pub checkpoint : Option Checkpoint
  pub dirty : Option DirtyState

pub record FetchedSource : Type 0 where
  pub completion : SourceCompletion
  pub received_events : ℕ
  pub duplicate_events : ℕ
  pub admitted : List AdmittedEvent
  pub rejected_events : ℕ
  pub cursor_candidate : Option Cursor

pub record IngestOutcome : Type 0 where
  pub completion : SourceCompletion
  pub received_events : ℕ
  pub admitted_events : ℕ
  pub rejected_events : ℕ
  pub duplicate_events : ℕ
  pub inserted_mutations : ℕ
  pub inserted_signed_events : ℕ
  pub inserted_observations : ℕ
  pub checkpoint : Option Cursor
  pub checkpoint_advanced : Bool
  pub dirty_generation : Option ℕ
  pub dirty_generation_advanced : Bool

-- The counters of the loop.
pub record Inserted : Type 0 where
  pub mutations : ℕ
  pub signed_events : ℕ
  pub observations : ℕ

-- The derived equalities of `Option<Checkpoint>` and `Option<DirtyState>`.
abbrev pub same_checkpoint : Option Checkpoint → Option Checkpoint → Bool
same_checkpoint none none = true
same_checkpoint none (some b) = false
same_checkpoint (some a) none = false
same_checkpoint (some a) (some b) =
    a.cursor.created_at_unix_seconds == b.cursor.created_at_unix_seconds
    && a.cursor.event_id == b.cursor.event_id
    && a.revision == b.revision
    && a.completed_at_unix_s == b.completed_at_unix_s

abbrev pub same_dirty : Option DirtyState → Option DirtyState → Bool
same_dirty none none = true
same_dirty none (some b) = false
same_dirty (some a) none = false
same_dirty (some a) (some b) =
    a.generation == b.generation
    && a.policy == b.policy
    && a.updated_at_unix_s == b.updated_at_unix_s

-- `u32::try_from` and `checked_add`.
abbrev pub as_u32 : ℕ → SourceOperation ℕ
as_u32 n = if leb n 4294967295 then ok n else err storage

-- `RhiTradeSourceObservation::from_parts`.
abbrev pub observation_of : List ℕ → ℕ → AdmittedEvent → Observation
observation_of source_id policy event = record {
  source_id = source_id;
  policy = policy;
  event_id = event.event_id;
  event_signature = event.event_signature;
  observed_at = event.observed_at;
}

unfoldable pub persist_admitted :
    List ℕ
    → ℕ
    → List AdmittedEvent
    → Inserted
    → TradeTables
    → SourceOperation (Inserted × TradeTables)
persist_admitted source_id policy [] inserted db = ok (inserted, db)
persist_admitted source_id policy (event ∷ events) inserted db = do
  r ← ok_or (from_admitted event) storage
  (out, db') ← map_err persistence (persist r (observation_of source_id policy event) db)
  mutations ← as_u32 (inserted.mutations + bit out.mutation_inserted)
  signed_events ← as_u32 (inserted.signed_events + bit out.signed_event_inserted)
  observations ← as_u32 (inserted.observations + bit out.observation_inserted)
  persist_admitted source_id policy events
      (record { mutations = mutations; signed_events = signed_events; observations = observations })
      db'

abbrev pub generation_of : Option DirtyState → Option ℕ
generation_of none = none
generation_of (some dirty) = some dirty.generation

abbrev pub checkpoint_cursor : Option Checkpoint → Option Cursor
checkpoint_cursor none = none
checkpoint_cursor (some checkpoint) = some checkpoint.cursor

-- Mutations or signed events that are new advance the generation.
unfoldable pub settle_generation :
    ℕ
    → ℕ
    → ℕ
    → Option DirtyState
    → Inserted
    → TradeTables
    → SourceOperation ((Option ℕ × Bool) × TradeTables)
settle_generation trade_id policy observed_at dirty inserted db =
    if not (inserted.mutations == 0) || not (inserted.signed_events == 0)
    then (do
      (generation, db') ← advance_dirty_generation trade_id policy observed_at dirty db
      ok ((some generation, true), db'))
    else ok ((generation_of dirty, false), db)

abbrev pub write_candidate :
    List ℕ
    → ℕ
    → ℕ
    → ℕ
    → Option Checkpoint
    → Option Cursor
    → TradeTables
    → SourceOperation ((Option Cursor × Bool) × TradeTables)
write_candidate source_id policy trade_id observed_at current none db = err storage
write_candidate source_id policy trade_id observed_at current (some candidate) db = do
  db' ← write_checkpoint source_id policy trade_id current candidate observed_at db
  ok ((some candidate, true), db')

-- A complete source whose candidate is after the checkpoint advances it.
unfoldable pub settle_checkpoint :
    List ℕ
    → ℕ
    → ℕ
    → ℕ
    → Option Checkpoint
    → FetchedSource
    → TradeTables
    → SourceOperation ((Option Cursor × Bool) × TradeTables)
settle_checkpoint source_id policy trade_id observed_at current fetched db =
    if is_complete fetched.completion
      && is_some_and
          (λ candidate. is_none_or (λ prior. is_lt (compare_cursor prior.cursor candidate)) current)
          fetched.cursor_candidate
    then write_candidate source_id policy trade_id observed_at current fetched.cursor_candidate db
    else ok ((checkpoint_cursor current, false), db)

unfoldable pub commit_source_result :
    List ℕ
    → ℕ
    → ℕ
    → ℕ
    → InitialState
    → FetchedSource
    → TradeTables
    → SourceOperation (IngestOutcome × TradeTables)
commit_source_result source_id policy trade_id observed_at initial fetched db = do
  checkpoint ← read_checkpoint source_id policy trade_id db
  require (same_checkpoint checkpoint initial.checkpoint) generation_conflict
  dirty ← read_dirty trade_id db
  require (same_dirty dirty initial.dirty) generation_conflict
  admitted_events ← as_u32 (length fetched.admitted)
  (inserted, db1) ←
      persist_admitted source_id policy fetched.admitted
        (record { mutations = 0; signed_events = 0; observations = 0 }) db
  ((generation, generation_advanced), db2) ←
      settle_generation trade_id policy observed_at initial.dirty inserted db1
  ((cursor, checkpoint_advanced), db3) ←
      settle_checkpoint source_id policy trade_id observed_at initial.checkpoint fetched db2
  received_events ← as_u32 fetched.received_events
  rejected_events ← as_u32 fetched.rejected_events
  duplicate_events ← as_u32 fetched.duplicate_events
  ok (
    record {
      completion = fetched.completion;
      received_events = received_events;
      admitted_events = admitted_events;
      rejected_events = rejected_events;
      duplicate_events = duplicate_events;
      inserted_mutations = inserted.mutations;
      inserted_signed_events = inserted.signed_events;
      inserted_observations = inserted.observations;
      checkpoint = cursor;
      checkpoint_advanced = checkpoint_advanced;
      dirty_generation = generation;
      dirty_generation_advanced = generation_advanced;
    },
    db3,
  )
