-- ===== src/Attempt/Bounds.antt =====
-- The bounds that src/reconciliation_attempt.rs puts on deadlines and on the results of sources.
use rhi.Attempt.Results.{source_result_new}
use rhi.Attempt.Plan.{absolute_deadline}
use rhi.Attempt.Types.{
  incomplete_timeout, unsupported, invalid_input, SourceRequest, SourceCompletion, SourceResult,
}
use rhi.Base.{ℕ, inl, inr, ok, err, ◌≡◌, arith, min, ◌<◌, ◌≤◌, ◌+◌, ◌↔◌, max_i64, ◌⊎◌, le_or_lt}

-- A deadline is the start and the duration added, cut at the ceiling, and later than the start; it
-- is invalid input exactly if the sum is above the greatest time or the cut sum is no later than
-- the start.
pub absolute_deadline-cases :
    (started_at duration ceiling : ℕ)
    → ((absolute_deadline started_at duration ceiling ≡ ok (min (started_at + duration) ceiling))
        × (started_at < min (started_at + duration) ceiling)
        × (started_at + duration ≤ max_i64))
      ⊎ ((absolute_deadline started_at duration ceiling ≡ err invalid_input)
          × ((max_i64 < started_at + duration)
              ⊎ (min (started_at + duration) ceiling ≤ started_at)))
unfolding absolute_deadline
absolute_deadline-cases started_at duration ceiling =
    elim (le_or_lt (started_at + duration) max_i64) [
      | inr out ↦ inr (ground arith, inl out)
      | inl early ↦ elim (le_or_lt (min (started_at + duration) ceiling) started_at) [
        | inl past ↦ inr (ground arith, inr past)
        | inr ahead ↦ inl (ground arith, ahead, early)
      ]
    ]

-- What an accepted result of a source says.
pub record ResultFits (request : SourceRequest) (result : SourceResult) : Type 0 where
  pub answers : result.request_id ≡ request.id
  pub within_attempt : request.attempt_started_at ≤ result.started_at
  pub in_order : result.started_at ≤ result.finished_at
  pub begun_early : result.started_at < request.deadline
  pub timed_out : (result.outcome ≡ incomplete_timeout) ↔ (request.deadline ≤ result.finished_at)
  pub events : result.accepted_event_count ≤ request.maximum_events
  pub bytes : result.accepted_event_bytes ≤ request.maximum_bytes
  pub both_empty : (result.accepted_event_count ≡ 0) ↔ (result.accepted_event_bytes ≡ 0)
  pub unsupported_empty : result.outcome ≡ unsupported → result.accepted_event_count ≡ 0

-- A result that `new` accepts answers its request; it starts within the attempt, ends no earlier
-- than it starts and starts before the deadline, has timed out exactly if it ends at the deadline
-- or later, keeps to the request's bounds on events and bytes, has events exactly if it has bytes,
-- and none if the source is unsupported.
pub source_result_new-ResultFits :
    (request : SourceRequest) (outcome : SourceCompletion) (started_at finished_at events bytes : ℕ)
    (result : SourceResult)
    → source_result_new request outcome started_at finished_at events bytes ≡ ok result
    → ResultFits request result
unfolding source_result_new
source_result_new-ResultFits request outcome started_at finished_at events bytes result h = record {
  answers = ground arith;
  within_attempt = ground arith;
  in_order = ground arith;
  begun_early = ground arith;
  timed_out = (λ e. ground arith, λ e. ground arith);
  events = ground arith;
  bytes = ground arith;
  both_empty = (λ e. ground arith, λ e. ground arith);
  unsupported_empty = λ e. ground arith;
}
