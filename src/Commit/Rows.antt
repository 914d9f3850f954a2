-- ===== src/Commit/Rows.antt =====
-- The rows that src/reconciliation_commit.rs writes and compares, with the digest of an inventory.
use rhi.Base.{
  [], none, some, ok, err, ◌∷◌, Bool, List, Option, ℕ, ◌>>=◌, be_bytes, if◌then◌else◌, is_some,
  length, ◌++◌, ◌==◌, ◌>>◌, leb, require, ◌&&◌, domain, max_i64, not, same_bytes, any, iff, ◌=?◌,
}
use rhi.Commit.Types.{
  AttemptRow, SourceRow, CommitResult, storage, CommitTables, reconciliation_checks, source_checks,
}
use rhi.Attempt.Types.{
  AttemptPlan, complete, incomplete_timeout, incomplete_unavailable, incomplete_resource_limit,
  incomplete_unknown, unsupported, SourceCompletion, SourceRequest,
}
use rhi.Replay.Types.{CommitFact, CommitParts, Cursor}

-- `i64_value`, on a value that may be absent too.
abbrev pub i64_value : ℕ → CommitResult ℕ
i64_value value = if leb value max_i64 then ok value else err storage

abbrev pub i64_option : Option ℕ → CommitResult (Option ℕ)
i64_option none = ok none
i64_option (some value) = i64_value value >>= λ v. ok (some v)

abbrev pub update_framed : List ℕ → List ℕ
update_framed bytes = be_bytes 8 (length bytes) ++ bytes

abbrev pub fact_bytes : CommitFact → List ℕ
fact_bytes fact =
    be_bytes 32 fact.persisted.mutation_id
    ++ (be_bytes 16 fact.persisted.trade_id
        ++ (update_framed fact.persisted.contract_id
            ++ (be_bytes 2 fact.persisted.schema_version
                ++ (be_bytes 32 fact.persisted.event_id
                    ++ (be_bytes 64 fact.persisted.event_signature
                        ++ (be_bytes 32 fact.persisted.author_pubkey
                            ++ (be_bytes 4 fact.persisted.event_kind
                                ++ (be_bytes 8 fact.persisted.authored_at_unix_s
                                    ++ (update_framed fact.persisted.canonical_content
                                        ++ (update_framed fact.persisted.canonical_event_json
                                            ++ be_bytes 8 fact.observed_at))))))))))

abbrev pub facts_bytes : List CommitFact → List ℕ
facts_bytes [] = []
facts_bytes (fact ∷ facts) = fact_bytes fact ++ facts_bytes facts

abbrev pub created_at_of : Option Cursor → Option ℕ
created_at_of none = none
created_at_of (some cursor) = some cursor.created_at_unix_seconds

abbrev pub event_id_of : Option Cursor → Option ℕ
event_id_of none = none
event_id_of (some cursor) = some cursor.event_id

abbrev pub first_trade : List SourceRequest → CommitResult ℕ
first_trade [] = err storage
first_trade (request ∷ requests) = ok request.trade_id

-- The values bound to INSERT_ATTEMPT_SQL, and to MATCH_ATTEMPT_SQL.
unfoldable pub attempt_row : AttemptPlan → CommitResult AttemptRow
attempt_row plan = do
  trade_id ← first_trade plan.requests
  generation ← i64_value plan.input_generation
  started ← i64_value plan.attempt_started_at
  deadline ← i64_value plan.deadline
  sources ← i64_value (length plan.requests)
  ok (record {
    attempt_id = plan.id;
    job_id = plan.job_id;
    trade_id = trade_id;
    input_generation = generation;
    evidence_policy_sha256 = plan.policy_digest;
    attempt_started_unix_ms = started;
    deadline_unix_ms = deadline;
    source_count = sources;
  })

module _ (sha256 : List ℕ → ℕ) where
  unfoldable pub accepted_inventory_digest : List CommitFact → CommitResult ℕ
  accepted_inventory_digest facts = do
    require (leb (length facts) 4294967295) storage
    ok (
        sha256 (
          domain "radroots.rhi.reconciliation_source_inventory.v1"
          ++ (be_bytes 4 (length facts) ++ facts_bytes facts)))

  -- The values bound to INSERT_SOURCE_RESULT_SQL, and to MATCH_SOURCE_RESULT_SQL.
  unfoldable pub source_row : ℕ → ℕ → CommitParts → CommitResult SourceRow
  source_row attempt_id ordinal part = do
    prior ← i64_option (created_at_of part.prior_cursor)
    candidate ← i64_option (created_at_of part.cursor_candidate)
    inventory ← accepted_inventory_digest part.facts
    position ← i64_value ordinal
    started ← i64_value part.result.started_at
    finished ← i64_value part.result.finished_at
    bytes ← i64_value part.result.accepted_event_bytes
    first ← i64_option part.first_observed_at
    overlap ← i64_value part.overlap_seconds
    since ← i64_value part.since_unix_seconds
    ok (record {
      attempt_id = attempt_id;
      request_id = part.request_id;
      source_ordinal = position;
      source_id = part.source_id;
      trade_id = part.trade_id;
      required = part.required;
      selector_sha256 = part.selector_digest;
      replay_id = part.replay_id;
      completion = part.result.outcome;
      started_unix_ms = started;
      finished_unix_ms = finished;
      accepted_event_count = part.result.accepted_event_count;
      accepted_event_bytes = bytes;
      accepted_inventory_sha256 = inventory;
      duplicate_observation_count = part.duplicate_observations;
      first_observed_unix_s = first;
      prior_cursor_created_at_unix_s = prior;
      prior_cursor_event_id = event_id_of part.prior_cursor;
      overlap_seconds = overlap;
      inclusive_since_unix_s = since;
      candidate_created_at_unix_s = candidate;
      candidate_event_id = event_id_of part.cursor_candidate;
      checkpoint_advanced = is_some part.eligible_cursor;
    })

abbrev pub completion_tag : SourceCompletion → ℕ
completion_tag complete = 0
completion_tag incomplete_timeout = 1
completion_tag incomplete_unavailable = 2
completion_tag incomplete_resource_limit = 3
completion_tag incomplete_unknown = 4
completion_tag unsupported = 5

-- The conditions of MATCH_ATTEMPT_SQL and MATCH_SOURCE_RESULT_SQL.
unfoldable pub same_attempt_row : AttemptRow → AttemptRow → Bool
same_attempt_row r s =
    s.attempt_id == r.attempt_id
    && s.job_id == r.job_id
    && s.trade_id == r.trade_id
    && s.input_generation == r.input_generation
    && s.evidence_policy_sha256 == r.evidence_policy_sha256
    && s.attempt_started_unix_ms == r.attempt_started_unix_ms
    && s.deadline_unix_ms == r.deadline_unix_ms
    && s.source_count == r.source_count

unfoldable pub same_source_row : SourceRow → SourceRow → Bool
same_source_row r s =
    s.attempt_id == r.attempt_id
    && s.request_id == r.request_id
    && s.source_ordinal == r.source_ordinal
    && same_bytes s.source_id r.source_id
    && s.trade_id == r.trade_id
    && iff s.required r.required
    && s.selector_sha256 == r.selector_sha256
    && s.replay_id == r.replay_id
    && completion_tag s.completion == completion_tag r.completion
    && s.started_unix_ms == r.started_unix_ms
    && s.finished_unix_ms == r.finished_unix_ms
    && s.accepted_event_count == r.accepted_event_count
    && s.accepted_event_bytes == r.accepted_event_bytes
    && s.accepted_inventory_sha256 == r.accepted_inventory_sha256
    && s.duplicate_observation_count == r.duplicate_observation_count
    && s.first_observed_unix_s =? r.first_observed_unix_s
    && s.prior_cursor_created_at_unix_s =? r.prior_cursor_created_at_unix_s
    && s.prior_cursor_event_id =? r.prior_cursor_event_id
    && s.overlap_seconds == r.overlap_seconds
    && s.inclusive_since_unix_s == r.inclusive_since_unix_s
    && s.candidate_created_at_unix_s =? r.candidate_created_at_unix_s
    && s.candidate_event_id =? r.candidate_event_id
    && iff s.checkpoint_advanced r.checkpoint_advanced

-- INSERT_ATTEMPT_SQL and INSERT_SOURCE_RESULT_SQL: checks, keys and the reference to a row.
unfoldable pub insert_reconciliation_row :
    AttemptRow → CommitTables → CommitResult (ℕ × CommitTables)
insert_reconciliation_row r db =
    if reconciliation_checks r
      && not (any (λ s. s.attempt_id == r.attempt_id) db.attempts)
      && any (λ j. j.job_id == r.job_id) db.jobs
    then ok (1, record db { attempts = r ∷ db.attempts })
    else err storage

unfoldable pub insert_source_row : SourceRow → CommitTables → CommitResult (ℕ × CommitTables)
insert_source_row r db =
    if source_checks r
      && not (any (λ s. s.attempt_id == r.attempt_id && s.request_id == r.request_id) db.sources)
      && not (
          any (λ s. s.attempt_id == r.attempt_id && s.source_ordinal == r.source_ordinal)
            db.sources)
      && any (λ a. a.attempt_id == r.attempt_id) db.attempts
    then ok (1, record db { sources = r ∷ db.sources })
    else err storage
