-- ===== src/Commit/Tests.antt =====
-- The theorems on a commit at one attempt with one source and one fact.
use rhi.Trade.Generations.{one_generation}
use rhi.Commit.Again.{commit-again, commit-cases}
use rhi.Commit.Checked.{CommitValid, NewCommit}
use rhi.Jobs.Decode.{read_job, decode_job, job_id, valid_state_fields}
use rhi.Trade.Persist.{
  persist, insert_mutation, insert_event, insert_observation, insert_mutation_row, insert_event_row,
  insert_observation_row,
}
use rhi.Commit.Existing.{reconcile_existing}
use rhi.Jobs.Claim.{lease_for}
use rhi.Trade.Samples.{no_evidence, relay, with_sample, sample_record}
use rhi.Replay.Types.{CommitParts, Cursor}
use rhi.Attempt.Types.{AttemptPlan, SourceRequest, complete}
use rhi.Commit.Types.{CommitTables, CommitOutcome, SourceRow, reconciliation_checks, source_checks}
use rhi.Jobs.Fence.{validate_exact_lease, same_job, same_policy, same_state}
use rhi.Jobs.Samples.{hash, leased_row, ready_row}
use rhi.Trade.Checkpoints.{
  read_dirty, read_checkpoint, write_checkpoint, checkpoint_statement, insert_checkpoint_row,
  advance_dirty_generation, update_generations,
}
use rhi.Commit.Rows.{
  attempt_row, insert_reconciliation_row, source_row, accepted_inventory_digest, insert_source_row,
}
use rhi.Commit.Operation.{
  insert_attempt, commit, commit_new, read_checkpoints, persist_parts, persist_facts,
  advance_if_new, write_parts, advance_checkpoint, insert_source_result, raw_outcome,
}
use rhi.Trade.Types.{
  checkpoint_checks, generation_checks, guard_generation, mutation_checks, event_checks,
  observation_checks,
}
use rhi.Jobs.Types.{Lease, policy_new, lease_owner_from_bytes}
use rhi.Base.{ok, some, none, [], ◌∷◌, true, refl, codes, be_bytes, ◌≡◌, false, ◌⊎◌}

abbrev sample_plan : AttemptPlan
sample_plan = record {
  id = 600;
  job_id = 50300;
  input_generation = 5;
  policy_digest = 8;
  attempt_started_at = 1000;
  deadline = 20000;
  requests = sample_request ∷ [];
}
  where
    sample_request : SourceRequest
    sample_request = record {
      id = 601;
      source_id = relay;
      trade_id = 3;
      required = true;
      selector_digest = 77;
      attempt_started_at = 1000;
      deadline = 20000;
      lookback_seconds = 3600;
      maximum_events = 10;
      maximum_bytes = 1000;
    }

abbrev sample_cursor : Cursor
sample_cursor = record { created_at_unix_seconds = 40; event_id = 30 }

abbrev sample_part : CommitParts
sample_part = record {
  replay_id = 602;
  request_id = 601;
  source_id = relay;
  trade_id = 3;
  required = true;
  policy_digest = 8;
  selector_digest = 77;
  prior_cursor = none;
  overlap_seconds = 60;
  since_unix_seconds = 0;
  result = record {
    request_id = 601;
    outcome = complete;
    started_at = 1000;
    finished_at = 50500;
    accepted_event_count = 1;
    accepted_event_bytes = 2;
  };
  duplicate_observations = 0;
  cursor_candidate = some sample_cursor;
  eligible_cursor = some sample_cursor;
  first_observed_at = some 50;
  facts = record { persisted = sample_record; observed_at = 50 } ∷ [];
}

abbrev before_commit : CommitTables
before_commit = record {
  evidence = record no_evidence {
    generations =
        record { trade_id = 3; generation = 5; evidence_policy_sha256 = 8; updated_at_unix_s = 7 }
        ∷ [];
  };
  jobs = leased_row ∷ [];
  attempts = [];
  sources = [];
}

abbrev sample_source : SourceRow
sample_source = record {
  attempt_id = 600;
  request_id = 601;
  source_ordinal = 0;
  source_id = relay;
  trade_id = 3;
  required = true;
  selector_sha256 = 77;
  replay_id = 602;
  completion = complete;
  started_unix_ms = 1000;
  finished_unix_ms = 50500;
  accepted_event_count = 1;
  accepted_event_bytes = 2;
  accepted_inventory_sha256 = 16428;
  duplicate_observation_count = 0;
  first_observed_unix_s = some 50;
  prior_cursor_created_at_unix_s = none;
  prior_cursor_event_id = none;
  overlap_seconds = 60;
  inclusive_since_unix_s = 0;
  candidate_created_at_unix_s = some 40;
  candidate_event_id = some 30;
  checkpoint_advanced = true;
}

abbrev after_commit : CommitTables
after_commit = record {
  evidence = record (with_sample no_evidence) {
    checkpoints =
        record {
          source_id = relay;
          selector_id = codes "trade_mutation_lineage_v1";
          evidence_policy_sha256 = 8;
          trade_id = 3;
          cursor_created_at_unix_s = 40;
          cursor_event_id = 30;
          revision = 1;
          completed_at_unix_s = 50;
        }
        ∷ [];
    generations =
        record { trade_id = 3; generation = 6; evidence_policy_sha256 = 8; updated_at_unix_s = 50 }
        ∷ [];
  };
  jobs = leased_row ∷ [];
  attempts =
      record {
        attempt_id = 600;
        job_id = 50300;
        trade_id = 3;
        input_generation = 5;
        evidence_policy_sha256 = 8;
        attempt_started_unix_ms = 1000;
        deadline_unix_ms = 20000;
        source_count = 1;
      }
      ∷ [];
  sources = sample_source ∷ [];
}

abbrev sample_commit : CommitOutcome
sample_commit = record {
  created = true;
  source_result_count = 1;
  checkpoint_advance_count = 1;
  dirty_generation_advanced = true;
  cursor_scopes =
      record {
        source_id = relay;
        trade_id = 3;
        policy_digest = 8;
        selector_digest = 77;
        cursor = sample_cursor;
      }
      ∷ [];
}

abbrev sample_lease : Lease
sample_lease = lease_for 77 1000 ready_row

commits :
    commit hash sample_lease sample_plan (sample_part ∷ []) before_commit
    ≡ ok (sample_commit, after_commit)
unfolding commit commit_new reconcile_existing validate_exact_lease same_job same_policy same_state
    read_dirty read_checkpoints insert_attempt attempt_row insert_reconciliation_row
    reconciliation_checks persist_parts persist_facts advance_if_new write_parts advance_checkpoint
    insert_source_result source_row accepted_inventory_digest insert_source_row source_checks
    raw_outcome read_checkpoint write_checkpoint checkpoint_statement insert_checkpoint_row
    checkpoint_checks advance_dirty_generation update_generations generation_checks guard_generation
    persist insert_mutation insert_event insert_observation insert_mutation_row insert_event_row
    insert_observation_row mutation_checks event_checks observation_checks read_job decode_job
    job_id valid_state_fields policy_new lease_owner_from_bytes be_bytes
commits = refl

before_commit-CommitValid : CommitValid before_commit
before_commit-CommitValid = record {
  evidence = record {
    scopes = record { once = λ row here. absurd here; fits = λ row here. absurd here };
    trades = one_generation before_commit.evidence _ refl;
  };
  referred = λ id none_there. refl;
}

commit-again_example :
    commit hash sample_lease sample_plan (sample_part ∷ []) after_commit
    ≡ ok (record sample_commit { created = false; dirty_generation_advanced = false }, after_commit)
commit-again_example =
    commit-again hash sample_lease sample_lease sample_plan (sample_part ∷ []) sample_commit
      before_commit after_commit before_commit-CommitValid commits

commit-cases_example :
    ((after_commit ≡ before_commit)
      × (sample_commit.created ≡ false)
      × (reconcile_existing hash sample_plan (sample_part ∷ []) before_commit ≡ ok true)
      × (raw_outcome false false (sample_part ∷ []) ≡ ok sample_commit))
    ⊎ NewCommit hash sample_lease sample_plan
        (sample_part ∷ [])
        sample_commit
        before_commit
        after_commit
commit-cases_example =
    commit-cases hash sample_lease sample_plan (sample_part ∷ []) sample_commit before_commit
      after_commit before_commit-CommitValid commits
