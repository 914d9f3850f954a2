-- ===== src/Replay/Types.antt =====
-- The errors and records of src/reconciliation_replay.rs, with the record that src/state_trade.rs
-- persists of an admitted event.
use rhi.Base.{ℕ, Bool, List, Option}
use rhi.Attempt.Types.{SourceResult}

pub data ReplayError : Type 0 where
  invalid_input invalid_configuration policy_mismatch resource_limit : ReplayError
  mutation_conflict signed_event_conflict : ReplayError

-- `RhiTradeSourceCursor` of src/source_ingest.rs.
pub record Cursor : Type 0 where
  pub created_at_unix_seconds : ℕ
  pub event_id : ℕ

pub record CursorEvidence : Type 0 where
  pub source_id : List ℕ
  pub trade_id : ℕ
  pub policy_digest : ℕ
  pub selector_digest : ℕ
  pub cursor : Cursor

pub record ReplayPlan : Type 0 where
  pub id : ℕ
  pub request_id : ℕ
  pub source_id : List ℕ
  pub trade_id : ℕ
  pub required : Bool
  pub policy_digest : ℕ
  pub selector_digest : ℕ
  pub prior_cursor : Option CursorEvidence
  pub overlap_seconds : ℕ
  pub since_unix_seconds : ℕ

-- `PersistenceRecord` of src/state_trade.rs.
pub record PersistenceRecord : Type 0 where
  pub mutation_id : ℕ
  pub trade_id : ℕ
  pub contract_id : List ℕ
  pub schema_version : ℕ
  pub event_id : ℕ
  pub event_signature : ℕ
  pub author_pubkey : ℕ
  pub event_kind : ℕ
  pub authored_at_unix_s : ℕ
  pub canonical_content : List ℕ
  pub canonical_event_json : List ℕ

-- The field `record` of `ReplayFact` is `persisted` here.
pub record ReplayFact : Type 0 where
  pub persisted : PersistenceRecord
  pub original_bytes : ℕ
  pub observed_at : ℕ

pub record CanonicalReplay : Type 0 where
  pub facts : List ReplayFact
  pub duplicate_observations : ℕ
  pub accepted_original_bytes : ℕ
  pub cursor_candidate : Option Cursor
  pub first_observed_at : Option ℕ

pub record SourceReplay : Type 0 where
  pub plan : ReplayPlan
  pub result : SourceResult
  pub duplicate_observations : ℕ
  pub accepted_original_bytes : ℕ
  pub cursor_candidate : Option Cursor
  pub first_observed_at : Option ℕ
  pub facts : List ReplayFact

pub record CommitFact : Type 0 where
  pub persisted : PersistenceRecord
  pub observed_at : ℕ

pub record CommitParts : Type 0 where
  pub replay_id : ℕ
  pub request_id : ℕ
  pub source_id : List ℕ
  pub trade_id : ℕ
  pub required : Bool
  pub policy_digest : ℕ
  pub selector_digest : ℕ
  pub prior_cursor : Option Cursor
  pub overlap_seconds : ℕ
  pub since_unix_seconds : ℕ
  pub result : SourceResult
  pub duplicate_observations : ℕ
  pub cursor_candidate : Option Cursor
  pub eligible_cursor : Option Cursor
  pub first_observed_at : Option ℕ
  pub facts : List CommitFact
