-- ===== src/Attempt/Tests.antt =====
-- An attempt of src/reconciliation_attempt.rs with one source.
use rhi.Attempt.Inventory.{result_ids, request_ids, attempt_results_new-ids}
use rhi.Attempt.Identity.{attempt_id, source_kind, selector_digest, source_selector, request_id}
use rhi.Attempt.Bounds.{ResultFits, source_result_new-ResultFits}
use rhi.Attempt.Results.{attempt_results_new, source_result_new}
use rhi.Attempt.Claim.{PlanFits, from_claim-PlanFits}
use rhi.Attempt.Plan.{absolute_deadline, from_claim, request_for}
use rhi.Attempt.Types.{
  result_inventory, complete, AttemptPlan, Configuration, SourceRequest, SourceResult,
}
use rhi.Jobs.Types.{leased, JobPolicy, Lease, attempt_policy_matches}
use rhi.Base.{ℕ, refl, [], none, some, true, ok, err, ◌∷◌, List, length, ◌≡◌, ◌⊎◌, be_bytes, ◌≢◌}

abbrev any_hash : List ℕ → ℕ
any_hash bytes = length bytes

abbrev a_policy : JobPolicy
a_policy = record {
  queue_capacity = 16;
  lease_duration_ms = 30000;
  lease_renewal_ms = 10000;
  max_attempts = 3;
  initial_backoff_ms = 500;
  maximum_backoff_ms = 60000;
}

abbrev a_lease : Lease
a_lease = record {
  job = record {
    id = 1;
    trade_id = 3;
    input_generation = 5;
    policy_digest = 8;
    state = leased;
    revision = 2;
    attempt_count = 1;
    failure_count = 0;
    policy = a_policy;
    next_attempt = none;
    lease_owner = some 77;
    lease_expires = some 31000;
    created_at = 1000;
    updated_at = 1000;
  };
  owner = 77;
  lease_expires = 31000;
}

abbrev a_configuration : Configuration
a_configuration = record {
  policy_digest = some 8;
  job_policy = some a_policy;
  attempt_deadline_ms = some 20000;
  result_events = some 100;
  result_bytes = some 1000;
  sources = some (
      record {
        source_id = some (97 ∷ 49 ∷ []);
        kind = some source_kind;
        selector = some source_selector;
        required = some true;
        deadline_ms = some 5000;
        lookback_seconds = some 3600;
      }
      ∷ []);
}

abbrev a_request : SourceRequest
a_request = record {
  id = 157;
  source_id = 97 ∷ 49 ∷ [];
  trade_id = 3;
  required = true;
  selector_digest = 114;
  attempt_started_at = 2000;
  deadline = 7000;
  lookback_seconds = 3600;
  maximum_events = 100;
  maximum_bytes = 1000;
}

abbrev a_plan : AttemptPlan
a_plan = record {
  id = 73;
  job_id = 1;
  input_generation = 5;
  policy_digest = 8;
  attempt_started_at = 2000;
  deadline = 22000;
  requests = a_request ∷ [];
}

plans : from_claim any_hash a_lease a_configuration 2000 ≡ ok a_plan
unfolding from_claim attempt_id selector_digest request_id request_for absolute_deadline
    attempt_policy_matches be_bytes
plans = refl

from_claim-PlanFits_example : PlanFits any_hash a_lease 2000 a_plan
from_claim-PlanFits_example = from_claim-PlanFits any_hash a_lease a_configuration 2000 a_plan plans

abbrev a_result : SourceResult
a_result = record {
  request_id = 157;
  outcome = complete;
  started_at = 2500;
  finished_at = 3000;
  accepted_event_count = 2;
  accepted_event_bytes = 900;
}

accepts : source_result_new a_request complete 2500 3000 2 900 ≡ ok a_result
unfolding source_result_new
accepts = refl

inventory :
    attempt_results_new a_plan (a_result ∷ [])
    ≡ ok (record { attempt_id = 73; results = a_result ∷ [] })
unfolding attempt_results_new
inventory = refl

source_result_new-ResultFits_example : ResultFits a_request a_result
source_result_new-ResultFits_example =
    source_result_new-ResultFits a_request complete 2500 3000 2 900 a_result accepts

attempt_results_new-ids_example :
    ((result_ids (a_result ∷ []) ≡ request_ids a_plan.requests)
      × (attempt_results_new a_plan (a_result ∷ [])
          ≡ ok (record { attempt_id = 73; results = a_result ∷ [] })))
    ⊎ ((result_ids (a_result ∷ []) ≢ request_ids a_plan.requests)
        × (attempt_results_new a_plan (a_result ∷ []) ≡ err result_inventory))
attempt_results_new-ids_example = attempt_results_new-ids a_plan (a_result ∷ [])
