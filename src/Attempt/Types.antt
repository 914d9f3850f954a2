-- ===== src/Attempt/Types.antt =====
-- The records and errors of src/reconciliation_attempt.rs. The configuration is a JSON document of a
-- library's type: here it is what the code reads of it by pointers, nothing where a pointer finds no
-- value of the type asked for.
use rhi.Base.{ℕ, Bool, List, Option}
use rhi.Jobs.Types.{JobPolicy}

pub data AttemptError : Type 0 where
  invalid_input invalid_configuration policy_mismatch lease_expired result_inventory : AttemptError

-- `RhiTradeSourceCompletion` of src/source_ingest.rs.
pub data SourceCompletion : Type 0 where
  complete incomplete_timeout incomplete_unavailable : SourceCompletion
  incomplete_resource_limit incomplete_unknown unsupported : SourceCompletion

-- One entry of `/evidence/sources`.
pub record SourceEntry : Type 0 where
  pub source_id : Option (List ℕ)
  pub kind : Option (List ℕ)
  pub selector : Option (List ℕ)
  pub required : Option Bool
  pub deadline_ms : Option ℕ
  pub lookback_seconds : Option ℕ

pub record Configuration : Type 0 where
  pub policy_digest : Option ℕ
  pub job_policy : Option JobPolicy
  pub attempt_deadline_ms : Option ℕ
  pub result_events : Option ℕ
  pub result_bytes : Option ℕ
  pub sources : Option (List SourceEntry)

pub record SourceRequest : Type 0 where
  pub id : ℕ
  pub source_id : List ℕ
  pub trade_id : ℕ
  pub required : Bool
  pub selector_digest : ℕ
  pub attempt_started_at : ℕ
  pub deadline : ℕ
  pub lookback_seconds : ℕ
  pub maximum_events : ℕ
  pub maximum_bytes : ℕ

pub record AttemptPlan : Type 0 where
  pub id : ℕ
  pub job_id : ℕ
  pub input_generation : ℕ
  pub policy_digest : ℕ
  pub attempt_started_at : ℕ
  pub deadline : ℕ
  pub requests : List SourceRequest

pub record SourceResult : Type 0 where
  pub request_id : ℕ
  pub outcome : SourceCompletion
  pub started_at : ℕ
  pub finished_at : ℕ
  pub accepted_event_count : ℕ
  pub accepted_event_bytes : ℕ

pub record AttemptResults : Type 0 where
  pub attempt_id : ℕ
  pub results : List SourceResult
