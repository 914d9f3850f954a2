-- ===== src/Trade/Tests.antt =====
-- The theorems on evidence and on a source's commit at the sample.
use rhi.Replay.Canonical.{compare_cursor}
use rhi.Trade.Again.{nothing_new, persist-agree, persist-again, done}
use rhi.Trade.Checkpoints.{
  read_checkpoint, read_dirty, write_checkpoint, checkpoint_statement, insert_checkpoint_row,
  advance_dirty_generation, insert_generation,
}
use rhi.Trade.Committed.{commit_source_result-SourceCommitted}
use rhi.Trade.Outcome.{SourceCommitted}
use rhi.Trade.Samples.{
  with_sample, no_evidence, relay, sample_record, sample_observation, no_evidence-TradeValid,
  all_new, persists_sample, sample_event,
}
use rhi.Trade.Ingest.{
  FetchedSource, IngestOutcome, InitialState, commit_source_result, persist_admitted,
  settle_generation, settle_checkpoint,
}
use rhi.Trade.Persist.{
  persist, insert_mutation, mutation_row, event_row, insert_event, insert_observation,
  insert_mutation_row, insert_event_row, insert_observation_row, mutation_matches, event_matches,
}
use rhi.Trade.Types.{
  TradeTables, mutation_checks, event_checks, checkpoint_checks, observation_checks,
  generation_checks,
}
use rhi.Attempt.Types.{complete}
use rhi.Base.{ok, some, none, [], ◌∷◌, true, refl, ◌≡◌, codes}

persist-again_example :
    persist sample_record sample_observation (with_sample no_evidence)
    ≡ ok (nothing_new, with_sample no_evidence)
persist-again_example =
    persist-again sample_record sample_observation all_new no_evidence persists_sample done

finds_sample :
    persist sample_record sample_observation (with_sample no_evidence)
    ≡ ok (nothing_new, with_sample no_evidence)
unfolding persist insert_mutation insert_event insert_observation insert_mutation_row
    insert_event_row insert_observation_row mutation_checks event_checks observation_checks
    mutation_matches event_matches
finds_sample = refl

persist-agree_example :
    (sample_record.mutation_id ≡ sample_record.mutation_id
      → mutation_row sample_record ≡ mutation_row sample_record)
    × (sample_record.event_id ≡ sample_record.event_id
        → sample_record.event_signature ≡ sample_record.event_signature
        → event_row sample_record ≡ event_row sample_record)
persist-agree_example =
    persist-agree sample_record sample_record sample_observation sample_observation all_new
      nothing_new no_evidence persists_sample done finds_sample

abbrev unread : InitialState
unread = record { checkpoint = none; dirty = none }

abbrev fetched_sample : FetchedSource
fetched_sample = record {
  completion = complete;
  received_events = 1;
  duplicate_events = 0;
  admitted = sample_event ∷ [];
  rejected_events = 0;
  cursor_candidate = some (record { created_at_unix_seconds = 40; event_id = 30 });
}

abbrev after_sample : TradeTables
after_sample = record (with_sample no_evidence) {
  checkpoints =
      record {
        source_id = relay;
        selector_id = codes "trade_mutation_lineage_v1";
        evidence_policy_sha256 = 8;
        trade_id = 3;
        cursor_created_at_unix_s = 40;
        cursor_event_id = 30;
        revision = 1;
        completed_at_unix_s = 50;
      }
      ∷ [];
  generations =
      record { trade_id = 3; generation = 1; evidence_policy_sha256 = 8; updated_at_unix_s = 50 }
      ∷ [];
}

abbrev sample_outcome : IngestOutcome
sample_outcome = record {
  completion = complete;
  received_events = 1;
  admitted_events = 1;
  rejected_events = 0;
  duplicate_events = 0;
  inserted_mutations = 1;
  inserted_signed_events = 1;
  inserted_observations = 1;
  checkpoint = some (record { created_at_unix_seconds = 40; event_id = 30 });
  checkpoint_advanced = true;
  dirty_generation = some 1;
  dirty_generation_advanced = true;
}

commits_sample :
    commit_source_result relay 8 3 50 unread fetched_sample no_evidence
    ≡ ok (sample_outcome, after_sample)
unfolding commit_source_result read_checkpoint read_dirty persist_admitted settle_generation
    settle_checkpoint write_checkpoint checkpoint_statement insert_checkpoint_row checkpoint_checks
    advance_dirty_generation insert_generation generation_checks persist insert_mutation
    insert_event insert_observation insert_mutation_row insert_event_row insert_observation_row
    mutation_checks event_checks observation_checks compare_cursor
commits_sample = refl

commit_source_result-SourceCommitted_example :
    SourceCommitted relay 8 3 unread fetched_sample sample_outcome no_evidence after_sample
commit_source_result-SourceCommitted_example =
    commit_source_result-SourceCommitted relay 8 3 50 unread fetched_sample sample_outcome
      no_evidence after_sample no_evidence-TradeValid commits_sample
