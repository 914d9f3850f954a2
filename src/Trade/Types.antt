-- ===== src/Trade/Types.antt =====
-- The evidence tables of src/state_catalog.rs with their checks and guards, and the records and errors
-- of src/state_trade.rs and src/source_ingest.rs. An array of fixed length is a number, so that the
-- checks on its length hold by its type.
use rhi.Base.{
  [], any, ℕ, ◌+◌, Bool, ◌&&◌, ◌||◌, List, between, leb, ltb, ◌==◌, same_bytes, length, codes,
  max_i64, ◌∷◌,
}
use rhi.Attempt.Identity.{source_selector}
use rhi.Attempt.Plan.{id_text}
use rhi.Replay.Types.{Cursor}

-- Rows of `trade_mutations`, `nostr_events` and `relay_observations`.
pub record MutationRow : Type 0 where
  pub mutation_id : ℕ
  pub trade_id : ℕ
  pub contract_id : List ℕ
  pub schema_version : ℕ
  pub event_kind : ℕ
  pub author_pubkey : ℕ
  pub canonical_content : List ℕ

pub record EventRow : Type 0 where
  pub event_id : ℕ
  pub event_signature : ℕ
  pub mutation_id : ℕ
  pub author_pubkey : ℕ
  pub event_kind : ℕ
  pub authored_at_unix_s : ℕ
  pub canonical_event_json : List ℕ

pub record ObservationRow : Type 0 where
  pub source_id : List ℕ
  pub selector_id : List ℕ
  pub evidence_policy_sha256 : ℕ
  pub event_id : ℕ
  pub event_signature : ℕ
  pub observed_at_unix_s : ℕ

-- Rows of `relay_checkpoints` and `trade_dirty_generations`.
pub record CheckpointRow : Type 0 where
  pub source_id : List ℕ
  pub selector_id : List ℕ
  pub evidence_policy_sha256 : ℕ
  pub trade_id : ℕ
  pub cursor_created_at_unix_s : ℕ
  pub cursor_event_id : ℕ
  pub revision : ℕ
  pub completed_at_unix_s : ℕ

pub record GenerationRow : Type 0 where
  pub trade_id : ℕ
  pub generation : ℕ
  pub evidence_policy_sha256 : ℕ
  pub updated_at_unix_s : ℕ

pub record TradeTables : Type 0 where
  pub mutations : List MutationRow
  pub events : List EventRow
  pub observations : List ObservationRow
  pub checkpoints : List CheckpointRow
  pub generations : List GenerationRow

abbrev pub contract_ids : List (List ℕ)
contract_ids =
    codes "radroots.trade.proposal.v1"
    ∷ codes "radroots.trade.decision.v1"
    ∷ codes "radroots.trade.revision_proposal.v1"
    ∷ codes "radroots.trade.revision_decision.v1"
    ∷ codes "radroots.trade.cancellation.v1"
    ∷ []

unfoldable pub mutation_checks : MutationRow → Bool
mutation_checks r =
    any (same_bytes r.contract_id) contract_ids
    && r.schema_version == 1
    && between 3470 3474 r.event_kind
    && between 1 131072 (length r.canonical_content)

unfoldable pub event_checks : EventRow → Bool
event_checks r =
    between 3470 3474 r.event_kind
    && leb r.authored_at_unix_s max_i64
    && between 1 524288 (length r.canonical_event_json)

unfoldable pub observation_checks : ObservationRow → Bool
observation_checks r =
    id_text r.source_id
    && same_bytes r.selector_id source_selector
    && between 1 max_i64 r.observed_at_unix_s

unfoldable pub checkpoint_checks : CheckpointRow → Bool
checkpoint_checks r =
    id_text r.source_id
    && same_bytes r.selector_id source_selector
    && leb r.cursor_created_at_unix_s max_i64
    && between 1 max_i64 r.revision
    && between 1 max_i64 r.completed_at_unix_s

-- What `relay_checkpoints_guard_update` lets through.
unfoldable pub guard_checkpoint : CheckpointRow → CheckpointRow → Bool
guard_checkpoint old new =
    same_bytes new.source_id old.source_id
    && same_bytes new.selector_id old.selector_id
    && new.evidence_policy_sha256 == old.evidence_policy_sha256
    && new.trade_id == old.trade_id
    && new.revision == old.revision + 1
    && leb old.completed_at_unix_s new.completed_at_unix_s
    && (ltb old.cursor_created_at_unix_s new.cursor_created_at_unix_s
        || (old.cursor_created_at_unix_s == new.cursor_created_at_unix_s
            && ltb old.cursor_event_id new.cursor_event_id))

unfoldable pub generation_checks : GenerationRow → Bool
generation_checks r = between 1 max_i64 r.generation && leb r.updated_at_unix_s max_i64

-- What `trade_dirty_generations_guard_update` lets through.
unfoldable pub guard_generation : GenerationRow → GenerationRow → Bool
guard_generation old new =
    new.trade_id == old.trade_id
    && new.generation == old.generation + 1
    && leb old.updated_at_unix_s new.updated_at_unix_s

-- `RhiTradeSourceObservation`.
pub record Observation : Type 0 where
  pub source_id : List ℕ
  pub policy : ℕ
  pub event_id : ℕ
  pub event_signature : ℕ
  pub observed_at : ℕ

pub record PersistenceOutcome : Type 0 where
  pub mutation_inserted : Bool
  pub signed_event_inserted : Bool
  pub observation_inserted : Bool

pub data PersistenceError : Type 0 where
  mutation_conflict signed_event_conflict storage : PersistenceError

pub data SourceError : Type 0 where
  generation_conflict : SourceError
  persistence : PersistenceError → SourceError
  storage : SourceError

pub record Checkpoint : Type 0 where
  pub cursor : Cursor
  pub revision : ℕ
  pub completed_at_unix_s : ℕ

pub record DirtyState : Type 0 where
  pub generation : ℕ
  pub policy : ℕ
  pub updated_at_unix_s : ℕ
