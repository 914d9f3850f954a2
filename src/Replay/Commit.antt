-- ===== src/Replay/Commit.antt =====
-- The cursor that a replay of src/reconciliation_replay.rs may commit, and the parts that are committed.
use rhi.Replay.Canonical.{is_lt, compare_cursor}
use rhi.Replay.Plan.{cursor_in}
use rhi.Base.{none, some, true, false, Bool, Option, if◌then◌else◌, map}
use rhi.Replay.Types.{Cursor, ReplayFact, SourceReplay, CommitFact, CommitParts}
use rhi.Attempt.Types.{complete, SourceCompletion}

abbrev pub is_complete : SourceCompletion → Bool
is_complete complete = true
is_complete _ = false

abbrev pub advances : Option Cursor → Cursor → Bool
advances none candidate = true
advances (some prior) candidate = is_lt (compare_cursor prior candidate)

abbrev pub after_cursor : Option Cursor → Option Cursor → Option Cursor
after_cursor none prior = none
after_cursor (some candidate) prior = if advances prior candidate then some candidate else none

unfoldable pub eligible_cursor : SourceCompletion → Option Cursor → Option Cursor → Option Cursor
eligible_cursor outcome candidate prior =
    if is_complete outcome then after_cursor candidate prior else none

-- The method of the same name.
abbrev pub eligible_cursor_of : SourceReplay → Option Cursor
eligible_cursor_of replay =
    eligible_cursor replay.result.outcome replay.cursor_candidate
      (cursor_in replay.plan.prior_cursor)

abbrev commit_fact : ReplayFact → CommitFact
commit_fact fact = record { persisted = fact.persisted; observed_at = fact.observed_at }

unfoldable pub into_commit_parts : SourceReplay → CommitParts
into_commit_parts replay = record {
  replay_id = replay.plan.id;
  request_id = replay.plan.request_id;
  source_id = replay.plan.source_id;
  trade_id = replay.plan.trade_id;
  required = replay.plan.required;
  policy_digest = replay.plan.policy_digest;
  selector_digest = replay.plan.selector_digest;
  prior_cursor = cursor_in replay.plan.prior_cursor;
  overlap_seconds = replay.plan.overlap_seconds;
  since_unix_seconds = replay.plan.since_unix_seconds;
  result = replay.result;
  duplicate_observations = replay.duplicate_observations;
  cursor_candidate = replay.cursor_candidate;
  eligible_cursor = eligible_cursor_of replay;
  first_observed_at = replay.first_observed_at;
  facts = map commit_fact replay.facts;
}
