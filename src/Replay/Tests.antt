-- ===== src/Replay/Tests.antt =====
-- The theorems on replay at two events, one of them observed twice.
use rhi.Replay.Refine.{canonicalize-observe_all}
use rhi.Replay.Advance.{eligible_cursor_iff, ReplayPlanFits, from_request-ReplayPlanFits}
use rhi.Attempt.Results.{source_result_new}
use rhi.Replay.Sorting.{total_bytes}
use rhi.Replay.Cases.{Refuses}
use rhi.Replay.Accepts.{Consistent, canonicalize-accepts, canonicalize-cases}
use rhi.Replay.Marks.{Marks}
use rhi.Replay.Ingest.{all_ok, ingest_bounded_facts_iff}
use rhi.Attempt.Identity.{source_kind, source_selector}
use rhi.Replay.Commit.{eligible_cursor}
use rhi.Replay.Fits.{ReplayFits, finish-ReplayFits}
use rhi.Replay.Finish.{finish, ingest_bounded_facts, AdmittedEvent, replay_with}
use rhi.Replay.Loop.{canonicalize, observe_all, no_facts}
use rhi.Replay.Plan.{
  ReplayConfiguration, committed_cursor_evidence, from_request, plan_for, cursor_scope_matches,
}
use rhi.Base.{
  [], some, true, ok, err, refl, ◌∷◌, List, codes, ℕ, length, ◌+◌, ◌≡◌, map_err, ◌↔◌, arith, ◌≤◌,
  ◌⊎◌,
}
use rhi.Attempt.Types.{complete, SourceRequest, AttemptPlan, SourceResult}
use rhi.Replay.Types.{ReplayFact, ReplayPlan, Cursor, CursorEvidence, CanonicalReplay, ReplayError}
use rhi.Replay.Keeping.{KeepsFacts}
use rhi.Replay.Canonical.{
  refused, compare_fact, same_event, is_lt, same_mutation, compare_cursor, sort_facts,
}

abbrev request : SourceRequest
request = record {
  id = 40;
  source_id = codes "relay";
  trade_id = 3;
  required = true;
  selector_digest = 9;
  attempt_started_at = 700000;
  deadline = 705000;
  lookback_seconds = 600;
  maximum_events = 8;
  maximum_bytes = 100;
}

abbrev attempt : AttemptPlan
attempt = record {
  id = 1;
  job_id = 2;
  input_generation = 5;
  policy_digest = 8;
  attempt_started_at = 700000;
  deadline = 705000;
  requests = request ∷ [];
}

abbrev evidence : CursorEvidence
evidence =
    committed_cursor_evidence (codes "relay") 3 8 9
      (record { created_at_unix_seconds = 500; event_id = 6 })

abbrev configuration : ReplayConfiguration
configuration = record {
  policy_digest = some 8;
  sources = some (
      record {
        source_id = some (codes "relay");
        kind = some source_kind;
        selector = some source_selector;
        overlap_seconds = some 60;
        lookback_seconds = some 600;
      }
      ∷ []);
}

abbrev hash : List ℕ → ℕ
hash bytes = length bytes

abbrev the_plan : ReplayPlan
the_plan = plan_for hash request 8 (some evidence) 60 600

abbrev event : ℕ → ℕ → ℕ → AdmittedEvent
event id created observed = record {
  original_bytes = 1 ∷ 2 ∷ 3 ∷ [];
  observed_at = observed;
  wire_json = some (4 ∷ id ∷ []);
  content = 5 ∷ [];
  mutation_id = id + 20;
  trade_id = 3;
  contract_id = 7 ∷ [];
  schema_version = 1;
  event_id = id;
  event_signature = id + 1;
  author = 2;
  kind = 3470;
  created_at = created;
}

abbrev events : List AdmittedEvent
events = event 11 650 702 ∷ event 10 640 701 ∷ event 11 650 701 ∷ []

abbrev fact : ℕ → ℕ → ℕ → ReplayFact
fact id created observed = record {
  persisted = record {
    mutation_id = id + 20;
    trade_id = 3;
    contract_id = 7 ∷ [];
    schema_version = 1;
    event_id = id;
    event_signature = id + 1;
    author_pubkey = 2;
    event_kind = 3470;
    authored_at_unix_s = created;
    canonical_content = 5 ∷ [];
    canonical_event_json = 4 ∷ id ∷ [];
  };
  original_bytes = 3;
  observed_at = observed;
}

abbrev facts : List ReplayFact
facts = fact 11 650 702 ∷ fact 10 640 701 ∷ fact 11 650 701 ∷ []

abbrev the_canonical : CanonicalReplay
the_canonical = record {
  facts = fact 10 640 701 ∷ fact 11 650 701 ∷ [];
  duplicate_observations = 1;
  accepted_original_bytes = 6;
  cursor_candidate = some (record { created_at_unix_seconds = 650; event_id = 11 });
  first_observed_at = some 701;
}

canonicalizes : canonicalize facts ≡ ok the_canonical
unfolding canonicalize compare_fact same_event same_mutation compare_cursor
canonicalizes = refl

ingests : ingest_bounded_facts (all_ok facts) 8 100 ≡ ok facts
unfolding ingest_bounded_facts
ingests = refl

abbrev the_result : SourceResult
the_result = record {
  request_id = 40;
  outcome = complete;
  started_at = 700500;
  finished_at = 703000;
  accepted_event_count = 2;
  accepted_event_bytes = 6;
}

finishes :
    finish the_plan request complete 700500 703000 events
    ≡ ok (replay_with the_plan the_result the_canonical)
unfolding finish canonicalize compare_fact same_event same_mutation compare_cursor
    ingest_bounded_facts source_result_new
finishes = refl

plans : from_request hash attempt request configuration (some evidence) ≡ ok the_plan
unfolding from_request cursor_scope_matches
plans = refl

canonicalize-observe_all_example :
    canonicalize facts ≡ map_err refused (observe_all (sort_facts facts) no_facts)
canonicalize-observe_all_example = canonicalize-observe_all facts

canonicalize-cases_example :
    ((c : CanonicalReplay) × (canonicalize facts ≡ ok c) × KeepsFacts facts c × Marks c)
    ⊎ ((e : ReplayError) × (canonicalize facts ≡ err (refused e)) × Refuses facts e)
canonicalize-cases_example = canonicalize-cases facts

canonicalize-accepts_example :
    ((c : CanonicalReplay) × (canonicalize facts ≡ ok c)) ↔ Consistent facts
canonicalize-accepts_example = canonicalize-accepts facts (omega arith) (omega arith)

ingest_bounded_facts_iff_example :
    (ingest_bounded_facts (all_ok facts) 8 100 ≡ ok facts)
    ↔ ((all_ok facts ≡ all_ok facts) × (length facts ≤ 8) × (total_bytes facts ≤ 100))
ingest_bounded_facts_iff_example =
    ingest_bounded_facts_iff (all_ok facts) 8 100 facts (omega arith) (omega arith)

finish-ReplayFits_example :
    ReplayFits the_plan request 700500 703000 events (replay_with the_plan the_result the_canonical)
finish-ReplayFits_example =
    finish-ReplayFits request 700500 703000 the_plan complete events
      (replay_with the_plan the_result the_canonical) (omega arith) (omega arith) finishes

from_request-ReplayPlanFits_example : ReplayPlanFits attempt request (some evidence) the_plan
from_request-ReplayPlanFits_example =
    from_request-ReplayPlanFits hash attempt request configuration (some evidence) the_plan plans

abbrev the_cursor : Cursor
the_cursor = record { created_at_unix_seconds = 650; event_id = 11 }

eligible_cursor_iff_example :
    (eligible_cursor complete (some the_cursor) (some evidence.cursor) ≡ some the_cursor) ↔ (
      (complete ≡ complete)
      × (some the_cursor ≡ some the_cursor)
      × ((p : Cursor) → some evidence.cursor ≡ some p → is_lt (compare_cursor p the_cursor) ≡ true))
eligible_cursor_iff_example =
    eligible_cursor_iff complete (some the_cursor) (some evidence.cursor) the_cursor
