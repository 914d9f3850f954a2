-- ===== src/Commit/Types.antt =====
-- The tables `evidence_reconciliations` and `evidence_reconciliation_sources` of src/state_catalog.rs with
-- their constraints, and the errors and records of src/reconciliation_commit.rs. A column of a completion's
-- code is the completion, and one of 0 or 1 is a Boolean.
use rhi.Replay.Commit.{is_complete}
use rhi.Attempt.Plan.{id_text}
use rhi.Replay.Types.{Cursor}
use rhi.Jobs.Schema.{Row}
use rhi.Base.{
  none, some, true, Bool, List, Option, Result, ℕ, between, leb, map, max_i64, ◌&&◌, ◌+◌, iff, ◌==◌,
  is_none, not, ◌||◌, is_some,
}
use rhi.Attempt.Types.{SourceCompletion}
use rhi.Trade.Types.{TradeTables, SourceError, PersistenceError}
use rhi.Jobs.Store.{Db}

pub record AttemptRow : Type 0 where
  pub attempt_id : ℕ
  pub job_id : ℕ
  pub trade_id : ℕ
  pub input_generation : ℕ
  pub evidence_policy_sha256 : ℕ
  pub attempt_started_unix_ms : ℕ
  pub deadline_unix_ms : ℕ
  pub source_count : ℕ

pub record SourceRow : Type 0 where
  pub attempt_id : ℕ
  pub request_id : ℕ
  pub source_ordinal : ℕ
  pub source_id : List ℕ
  pub trade_id : ℕ
  pub required : Bool
  pub selector_sha256 : ℕ
  pub replay_id : ℕ
  pub completion : SourceCompletion
  pub started_unix_ms : ℕ
  pub finished_unix_ms : ℕ
  pub accepted_event_count : ℕ
  pub accepted_event_bytes : ℕ
  pub accepted_inventory_sha256 : ℕ
  pub duplicate_observation_count : ℕ
  pub first_observed_unix_s : Option ℕ
  pub prior_cursor_created_at_unix_s : Option ℕ
  pub prior_cursor_event_id : Option ℕ
  pub overlap_seconds : ℕ
  pub inclusive_since_unix_s : ℕ
  pub candidate_created_at_unix_s : Option ℕ
  pub candidate_event_id : Option ℕ
  pub checkpoint_advanced : Bool

-- The tables that the transaction reads and writes: those of evidence, of jobs, and its own two.
pub record CommitTables : Type 0 where
  pub evidence : TradeTables
  pub jobs : List Row
  pub attempts : List AttemptRow
  pub sources : List SourceRow

-- The job tables among them: the columns of a dirty generation that src/reconciliation_job.rs reads.
abbrev pub jobs_of : CommitTables → Db
jobs_of db = record {
  jobs = db.jobs;
  dirty =
      map
        (λ g. record {
          trade_id = g.trade_id;
          generation = g.generation;
          evidence_policy_sha256 = g.evidence_policy_sha256;
        })
        db.evidence.generations;
}

unfoldable pub reconciliation_checks : AttemptRow → Bool
reconciliation_checks r =
    between 1 max_i64 r.input_generation
    && leb r.attempt_started_unix_ms max_i64
    && between (r.attempt_started_unix_ms + 1) max_i64 r.deadline_unix_ms
    && between 1 16 r.source_count

abbrev pub in_i64 : Option ℕ → Bool
in_i64 none = true
in_i64 (some value) = leb value max_i64

unfoldable pub source_checks : SourceRow → Bool
source_checks r =
    leb r.source_ordinal 15
    && id_text r.source_id
    && leb r.started_unix_ms max_i64
    && between r.started_unix_ms max_i64 r.finished_unix_ms
    && leb r.accepted_event_count 4096
    && leb r.accepted_event_bytes 8388608
    && leb r.duplicate_observation_count 4096
    && in_i64 r.first_observed_unix_s
    && in_i64 r.prior_cursor_created_at_unix_s
    && between 1 86400 r.overlap_seconds
    && leb r.inclusive_since_unix_s max_i64
    && in_i64 r.candidate_created_at_unix_s
    && iff (r.accepted_event_count == 0) (r.accepted_event_bytes == 0)
    && iff (r.accepted_event_count == 0) (is_none r.first_observed_unix_s)
    && iff (r.accepted_event_count == 0) (is_none r.candidate_created_at_unix_s)
    && iff (is_none r.candidate_created_at_unix_s) (is_none r.candidate_event_id)
    && iff (is_none r.prior_cursor_created_at_unix_s) (is_none r.prior_cursor_event_id)
    && (not r.checkpoint_advanced || is_complete r.completion)
    && (not r.checkpoint_advanced || is_some r.candidate_event_id)

pub data CommitError : Type 0 where
  lease_lost generation_conflict conflict storage : CommitError

abbrev pub CommitResult : Type 0 → Type 0
CommitResult A = Result CommitError A

pub record CursorScope : Type 0 where
  pub source_id : List ℕ
  pub trade_id : ℕ
  pub policy_digest : ℕ
  pub selector_digest : ℕ
  pub cursor : Cursor

pub record CommitOutcome : Type 0 where
  pub created : Bool
  pub source_result_count : ℕ
  pub checkpoint_advance_count : ℕ
  pub dirty_generation_advanced : Bool
  pub cursor_scopes : List CursorScope

abbrev pub map_persistence_error : PersistenceError → CommitError
map_persistence_error PersistenceError.mutation_conflict = conflict
map_persistence_error PersistenceError.signed_event_conflict = conflict
map_persistence_error PersistenceError.storage = storage

abbrev pub map_source_error : SourceError → CommitError
map_source_error SourceError.generation_conflict = generation_conflict
map_source_error (SourceError.persistence e) = map_persistence_error e
map_source_error SourceError.storage = storage
