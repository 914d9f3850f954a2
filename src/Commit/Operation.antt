-- ===== src/Commit/Operation.antt =====
-- The transaction `commit` of src/reconciliation_commit.rs.
use rhi.Trade.Ingest.{checkpoint_cursor}
use rhi.Trade.Persist.{persist}
use rhi.Commit.Existing.{reconcile_existing}
use rhi.Commit.Rows.{attempt_row, source_row, insert_reconciliation_row, insert_source_row}
use rhi.Attempt.Types.{AttemptPlan}
use rhi.Base.{
  [], none, some, true, false, ok, err, ◌∷◌, Bool, List, Option, ℕ, if◌then◌else◌, map_err, max,
  ◌==◌, ◌>>=◌, ◌>>◌, ok_or, require, ◌&&◌, ◌+◌, ◌/◌, leb, length, ◌||◌,
}
use rhi.Commit.Types.{
  CommitTables, CommitResult, CommitError, CursorScope, CommitOutcome, lease_lost,
  generation_conflict, storage, jobs_of, map_persistence_error, map_source_error,
}
use rhi.Trade.Types.{TradeTables, Checkpoint, DirtyState, Observation}
use rhi.Trade.Checkpoints.{read_dirty, advance_dirty_generation, read_checkpoint, write_checkpoint}
use rhi.Jobs.Fence.{LeaseValidationError, validate_exact_lease}
use rhi.Replay.Types.{CommitParts, CommitFact, Cursor}
use rhi.Jobs.Types.{Lease}

abbrev pub map_lease_error : LeaseValidationError → CommitError
map_lease_error LeaseValidationError.lease_lost = lease_lost
map_lease_error LeaseValidationError.storage = storage

abbrev pub same_cursor : Option Cursor → Option Cursor → Bool
same_cursor none none = true
same_cursor none (some b) = false
same_cursor (some a) none = false
same_cursor (some a) (some b) =
    a.created_at_unix_seconds == b.created_at_unix_seconds && a.event_id == b.event_id

-- `.filter(…).ok_or(GenerationConflict)` on the dirty state.
abbrev pub current_dirty : AttemptPlan → Option DirtyState → CommitResult DirtyState
current_dirty plan none = err generation_conflict
current_dirty plan (some dirty) =
    if dirty.generation == plan.input_generation && dirty.policy == plan.policy_digest
    then ok dirty
    else err generation_conflict

-- The loop that reads the checkpoints, each of which is the part's prior cursor.
unfoldable pub read_checkpoints :
    ℕ → List CommitParts → TradeTables → CommitResult (List (Option Checkpoint))
read_checkpoints policy [] db = ok []
read_checkpoints policy (part ∷ parts) db = do
  checkpoint ← map_err map_source_error (read_checkpoint part.source_id policy part.trade_id db)
  require (same_cursor (checkpoint_cursor checkpoint) part.prior_cursor) generation_conflict
  rest ← read_checkpoints policy parts db
  ok (checkpoint ∷ rest)

-- `RhiTradeSourceObservation::from_persistence_parts`.
abbrev pub fact_observation : List ℕ → ℕ → CommitFact → Observation
fact_observation source_id policy fact = record {
  source_id = source_id;
  policy = policy;
  event_id = fact.persisted.event_id;
  event_signature = fact.persisted.event_signature;
  observed_at = fact.observed_at;
}

unfoldable pub persist_facts :
    List ℕ → ℕ → List CommitFact → Bool → TradeTables → CommitResult (Bool × TradeTables)
persist_facts source_id policy [] fresh db = ok (fresh, db)
persist_facts source_id policy (fact ∷ facts) fresh db = do
  (out, db') ←
      map_err map_persistence_error
        (persist fact.persisted (fact_observation source_id policy fact) db)
  persist_facts source_id policy facts
      (fresh || (out.mutation_inserted || out.signed_event_inserted)) db'

unfoldable pub persist_parts :
    ℕ → List CommitParts → Bool → TradeTables → CommitResult (Bool × TradeTables)
persist_parts policy [] fresh db = ok (fresh, db)
persist_parts policy (part ∷ parts) fresh db = do
  (fresh', db') ← persist_facts part.source_id policy part.facts fresh db
  persist_parts policy parts fresh' db'

-- The greatest end of a part's result in whole seconds.
abbrev pub last_finished : List CommitParts → Option ℕ
last_finished [] = none
last_finished (part ∷ parts) =
    some (later_of (part.result.finished_at / 1000) (last_finished parts))
  where
    later_of : ℕ → Option ℕ → ℕ
    later_of at none = at
    later_of at (some later) = max at later

unfoldable pub advance_if_new :
    Bool → ℕ → ℕ → List CommitParts → DirtyState → TradeTables → CommitResult TradeTables
advance_if_new false trade_id policy parts dirty db = ok db
advance_if_new true trade_id policy parts dirty db = do
  updated_at ← ok_or (last_finished parts) storage
  (generation, db') ←
      map_err map_source_error (advance_dirty_generation trade_id policy updated_at (some dirty) db)
  ok db'

unfoldable pub advance_checkpoint :
    ℕ → CommitParts → Option Checkpoint → Option Cursor → TradeTables → CommitResult TradeTables
advance_checkpoint policy part checkpoint none db = ok db
advance_checkpoint policy part checkpoint (some candidate) db = map_err map_source_error (
    write_checkpoint part.source_id policy part.trade_id checkpoint candidate
      (part.result.finished_at / 1000) db)

-- `if result.rows_affected() == 1`.
abbrev pub one_inserted : ℕ × CommitTables → CommitResult CommitTables
one_inserted (rows, db) = if rows == 1 then ok db else err storage

unfoldable pub insert_attempt : AttemptPlan → CommitTables → CommitResult CommitTables
insert_attempt plan db = do
  row ← attempt_row plan
  rows ← insert_reconciliation_row row db
  one_inserted rows

abbrev pub scopes : List CommitParts → List CursorScope
scopes [] = []
scopes (part ∷ parts) = scope part part.eligible_cursor (scopes parts)
  where
    scope : CommitParts → Option Cursor → List CursorScope → List CursorScope
    scope part none rest = rest
    scope part (some cursor) rest =
        record {
          source_id = part.source_id;
          trade_id = part.trade_id;
          policy_digest = part.policy_digest;
          selector_digest = part.selector_digest;
          cursor = cursor;
        }
        ∷ rest

unfoldable pub raw_outcome : Bool → Bool → List CommitParts → CommitResult CommitOutcome
raw_outcome created advanced parts = do
  require (leb (length parts) 4294967295) storage
  require (leb (length (scopes parts)) 4294967295) storage
  ok (record {
    created = created;
    source_result_count = length parts;
    checkpoint_advance_count = length (scopes parts);
    dirty_generation_advanced = advanced;
    cursor_scopes = scopes parts;
  })

abbrev pub with_evidence : CommitTables → TradeTables → CommitTables
with_evidence db evidence = record db { evidence = evidence }

module _ (sha256 : List ℕ → ℕ) where
  unfoldable pub insert_source_result :
      ℕ → ℕ → CommitParts → CommitTables → CommitResult CommitTables
  insert_source_result id ordinal part db = do
    row ← source_row sha256 id ordinal part
    rows ← insert_source_row row db
    one_inserted rows

  -- The last loop, over the parts with their checkpoints.
  unfoldable pub write_parts :
      ℕ
      → ℕ
      → ℕ
      → List CommitParts
      → List (Option Checkpoint)
      → CommitTables
      → CommitResult CommitTables
  write_parts id policy ordinal [] checkpoints db = ok db
  write_parts id policy ordinal (part ∷ parts) [] db = ok db
  write_parts id policy ordinal (part ∷ parts) (checkpoint ∷ checkpoints) db = do
    evidence ← advance_checkpoint policy part checkpoint part.eligible_cursor db.evidence
    db' ← insert_source_result id ordinal part (with_evidence db evidence)
    write_parts id policy (ordinal + 1) parts checkpoints db'

  -- What follows when the attempt is not there yet.
  unfoldable pub commit_new :
      Lease
      → AttemptPlan
      → List CommitParts
      → CommitTables
      → CommitResult (CommitOutcome × CommitTables)
  commit_new lease plan parts db = do
    map_err map_lease_error (validate_exact_lease sha256 lease (jobs_of db))
    read ← map_err map_source_error (read_dirty lease.job.trade_id db.evidence)
    dirty ← current_dirty plan read
    checkpoints ← read_checkpoints plan.policy_digest parts db.evidence
    db1 ← insert_attempt plan db
    (fresh, evidence) ← persist_parts plan.policy_digest parts false db1.evidence
    evidence' ← advance_if_new fresh lease.job.trade_id plan.policy_digest parts dirty evidence
    db2 ← write_parts plan.id plan.policy_digest 0 parts checkpoints (with_evidence db1 evidence')
    out ← raw_outcome true fresh parts
    ok (out, db2)

  unfoldable pub commit :
      Lease
      → AttemptPlan
      → List CommitParts
      → CommitTables
      → CommitResult (CommitOutcome × CommitTables)
  commit lease plan parts db = do
    existing ← reconcile_existing sha256 plan parts db
    if existing
        then (do out ← raw_outcome false false parts; ok (out, db))
        else commit_new lease plan parts db
