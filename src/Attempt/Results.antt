-- ===== src/Attempt/Results.antt =====
-- The results of an attempt's sources in src/reconciliation_attempt.rs, and their inventory.
use rhi.Attempt.Plan.{AttemptResult}
use rhi.Attempt.Types.{
  incomplete_timeout, unsupported, invalid_input, result_inventory, AttemptPlan, SourceCompletion,
  SourceRequest, AttemptResults, SourceResult,
}
use rhi.Base.{
  ℕ, [], true, false, ok, err, ◌∷◌, Bool, List, ltb, not, take, if◌then◌else◌, length, ◌==◌, ◌+◌,
  ◌||◌, leb, ◌&&◌, iff,
}

abbrev is_timeout : SourceCompletion → Bool
is_timeout incomplete_timeout = true
is_timeout _ = false

abbrev is_unsupported : SourceCompletion → Bool
is_unsupported unsupported = true
is_unsupported _ = false

unfoldable pub source_result_new :
    SourceRequest → SourceCompletion → ℕ → ℕ → ℕ → ℕ → AttemptResult SourceResult
source_result_new request outcome started_at finished_at events bytes =
    let before_deadline = ltb finished_at request.deadline in
    if ltb started_at request.attempt_started_at
      || ltb finished_at started_at
      || leb request.deadline started_at
      || (is_timeout outcome && before_deadline)
      || (not (is_timeout outcome) && not before_deadline)
      || ltb request.maximum_events events
      || ltb request.maximum_bytes bytes
      || not (iff (events == 0) (bytes == 0))
      || (is_unsupported outcome && (not (events == 0) || not (bytes == 0)))
    then err invalid_input
    else ok (record {
      request_id = request.id;
      outcome = outcome;
      started_at = started_at;
      finished_at = finished_at;
      accepted_event_count = events;
      accepted_event_bytes = bytes;
    })

-- `zip(…).any(|(result, request)| result.request_id != request.id)`.
abbrev pub some_other_id : List SourceResult → List SourceRequest → Bool
some_other_id [] requests = false
some_other_id (result ∷ results) [] = false
some_other_id (result ∷ results) (request ∷ requests) =
    not (result.request_id == request.id) || some_other_id results requests

unfoldable pub attempt_results_new : AttemptPlan → List SourceResult → AttemptResult AttemptResults
attempt_results_new plan results =
    let taken = take (length plan.requests + 1) results in
    if not (length taken == length plan.requests) || some_other_id taken plan.requests
    then err result_inventory
    else ok (record { attempt_id = plan.id; results = taken })
