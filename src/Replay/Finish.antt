-- ===== src/Replay/Finish.antt =====
-- `finish` of src/reconciliation_replay.rs, from the events admitted to the parts that are committed.
use rhi.Attempt.Types.{SourceResult}
use rhi.Attempt.Results.{source_result_new}
use rhi.Replay.Loop.{stop, canonicalize, checked_u32}
use rhi.Base.{
  [], none, some, ok, ◌∷◌, List, Option, ℕ, Result, if◌then◌else◌, length, take, ◌>>◌, min, refuse,
  ◌==◌, not, require, ◌+◌, ◌>>=◌, ◌||◌, ltb, map_err, max_u64, ok_or, checked, keep, leb, map, ◌*◌,
  ◌++◌,
}
use rhi.Replay.Types.{
  ReplayError, invalid_input, resource_limit, PersistenceRecord, ReplayFact, ReplayPlan,
  SourceReplay, CanonicalReplay,
}
use rhi.Attempt.Types.{SourceRequest, SourceCompletion}
use rhi.Replay.Canonical.{Stop, refused}

-- What the code reads of an admitted event: its bytes, the fields of the signed event and of the
-- mutation in it, and the text that a library writes of the event, if it writes one.
pub record AdmittedEvent : Type 0 where
  pub original_bytes : List ℕ
  pub observed_at : ℕ
  pub wire_json : Option (List ℕ)
  pub content : List ℕ
  pub mutation_id : ℕ
  pub trade_id : ℕ
  pub contract_id : List ℕ
  pub schema_version : ℕ
  pub event_id : ℕ
  pub event_signature : ℕ
  pub author : ℕ
  pub kind : ℕ
  pub created_at : ℕ

-- `PersistenceRecord::from_admitted` of src/state_trade.rs; every error is one of encoding.
abbrev pub from_admitted : AdmittedEvent → Option PersistenceRecord
from_admitted event = persistence_record event event.wire_json
  where
    persistence_record : AdmittedEvent → Option (List ℕ) → Option PersistenceRecord
    persistence_record event none = none
    persistence_record event (some json) =
        if length json == 0
          || ltb 524288 (length json)
          || length event.content == 0
          || ltb 131072 (length event.content)
        then none
        else some (record {
          mutation_id = event.mutation_id;
          trade_id = event.trade_id;
          contract_id = event.contract_id;
          schema_version = event.schema_version;
          event_id = event.event_id;
          event_signature = event.event_signature;
          author_pubkey = event.author;
          event_kind = event.kind;
          authored_at_unix_s = event.created_at;
          canonical_content = event.content;
          canonical_event_json = json;
        })

abbrev pub replay_fact : SourceRequest → ℕ → ℕ → AdmittedEvent → Result ReplayError ReplayFact
replay_fact request started_at finished_at event = do
  refuse (not (event.trade_id == request.trade_id)) invalid_input
  observed_at_milliseconds ← ok_or (checked (event.observed_at * 1000)) invalid_input
  observed_interval_end ← ok_or (checked (observed_at_milliseconds + 999)) invalid_input
  refuse (ltb observed_interval_end started_at || ltb finished_at observed_at_milliseconds)
      invalid_input
  persisted ← ok_or (from_admitted event) invalid_input
  ok (record {
    persisted = persisted;
    original_bytes = length event.original_bytes;
    observed_at = event.observed_at;
  })

abbrev pub ingest_loop :
    ℕ
    → ℕ
    → List (Result ReplayError ReplayFact)
    → ℕ
    → List ReplayFact
    → Result ReplayError (List ReplayFact)
ingest_loop maximum_events maximum_bytes [] accepted_bytes bounded = ok bounded
ingest_loop maximum_events maximum_bytes (next ∷ facts) accepted_bytes bounded = do
  refuse (length bounded == maximum_events) resource_limit
  fact ← next
  accepted ←
      ok_or
        (keep (λ value. leb value maximum_bytes) (checked (accepted_bytes + fact.original_bytes)))
        resource_limit
  ingest_loop maximum_events maximum_bytes facts accepted (bounded ++ (fact ∷ []))

unfoldable pub ingest_bounded_facts :
    List (Result ReplayError ReplayFact) → ℕ → ℕ → Result ReplayError (List ReplayFact)
ingest_bounded_facts facts maximum_events maximum_bytes =
    ingest_loop maximum_events maximum_bytes (take (min (maximum_events + 1) max_u64) facts) 0 []

abbrev pub replay_with : ReplayPlan → SourceResult → CanonicalReplay → SourceReplay
replay_with plan result canonical = record {
  plan = plan;
  result = result;
  duplicate_observations = canonical.duplicate_observations;
  accepted_original_bytes = canonical.accepted_original_bytes;
  cursor_candidate = canonical.cursor_candidate;
  first_observed_at = canonical.first_observed_at;
  facts = canonical.facts;
}

unfoldable pub finish :
    ReplayPlan
    → SourceRequest
    → SourceCompletion
    → ℕ
    → ℕ
    → List AdmittedEvent
    → Result Stop SourceReplay
finish plan request outcome started_at finished_at events = do
  stop (require (request.id == plan.request_id) invalid_input)
  empty ←
      map_err (λ _. refused invalid_input)
        (source_result_new request outcome started_at finished_at 0 0)
  candidates ← stop (
      ingest_bounded_facts (map (replay_fact request started_at finished_at) events)
        request.maximum_events request.maximum_bytes)
  canonical ← canonicalize candidates
  accepted_event_count ← ok_or (checked_u32 (length canonical.facts)) (refused resource_limit)
  result ←
      map_err (λ _. refused invalid_input)
        (source_result_new request outcome started_at finished_at accepted_event_count
          canonical.accepted_original_bytes)
  ok (replay_with plan result canonical)
