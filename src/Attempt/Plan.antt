-- ===== src/Attempt/Plan.antt =====
-- `RhiReconciliationAttemptPlan::from_claim` of src/reconciliation_attempt.rs.
use rhi.Jobs.Statements.{is_leased}
use rhi.Jobs.Types.{attempt_policy_matches, Lease}
use rhi.Attempt.Identity.{attempt_id, request_id, selector_digest, source_kind, source_selector}
use rhi.Attempt.Types.{
  invalid_input, invalid_configuration, policy_mismatch, lease_expired, SourceEntry, AttemptError,
  SourceRequest, Configuration, AttemptPlan,
}
use rhi.Base.{
  ℕ, [], none, some, true, false, ok, err, ◌∷◌, Bool, List, Option, Result, ◌>>=◌, between,
  bytes_before, if◌then◌else◌, keep, leb, ok_or, same_bytes, ◌||◌, length, ltb, max_i64, ◌==◌, ◌>>◌,
  checked, min, refuse, ◌&&◌, all, not, ◌+◌,
}

abbrev pub max_sources : ℕ
max_sources = 16

abbrev pub max_result_events : ℕ
max_result_events = 4096

abbrev pub max_result_bytes : ℕ
max_result_bytes = 8388608

abbrev pub AttemptResult : Type 0 → Type 0
AttemptResult A = Result AttemptError A

abbrev pub bounded_integer : Option ℕ → ℕ → ℕ → AttemptResult ℕ
bounded_integer value minimum maximum =
    ok_or (keep (between minimum maximum) value) invalid_configuration

abbrev is_lowercase : ℕ → Bool
is_lowercase byte = between 97 122 byte

-- `byte.is_ascii_lowercase() || byte.is_ascii_digit() || matches!(byte, b'_' | b'-')`.
abbrev is_id_byte : ℕ → Bool
is_id_byte byte = is_lowercase byte || between 48 57 byte || byte == 95 || byte == 45

abbrev pub id_text : List ℕ → Bool
id_text [] = false
id_text (first ∷ rest) = leb (length (first ∷ rest)) 64 && is_lowercase first && all is_id_byte rest

abbrev keep_text : Option (List ℕ) → AttemptResult (List ℕ)
keep_text none = err invalid_configuration
keep_text (some text) = if id_text text then ok text else err invalid_configuration

-- `bounded_source_id`.
abbrev bounded_source_id : SourceEntry → AttemptResult (List ℕ)
bounded_source_id source = keep_text source.source_id

-- `min(ceiling)`, then held above the start.
abbrev capped : ℕ → ℕ → Option ℕ → Option ℕ
capped started_at ceiling none = none
capped started_at ceiling (some t) = keep (ltb started_at) (some (min t ceiling))

unfoldable pub absolute_deadline : ℕ → ℕ → ℕ → AttemptResult ℕ
absolute_deadline started_at duration_ms ceiling = do
  deadline ←
      ok_or
        (capped started_at ceiling (keep (λ t. leb t max_i64) (checked (started_at + duration_ms))))
        invalid_input
  refuse (ltb max_i64 deadline) invalid_input
  ok deadline

abbrev pub is_text : List ℕ → Option (List ℕ) → Bool
is_text expected none = false
is_text expected (some text) = same_bytes text expected

abbrev pub after_prior : Option (List ℕ) → List ℕ → Bool
after_prior none source_id = true
after_prior (some prior) source_id = bytes_before prior source_id

-- What the loop over the sources uses of the attempt.
pub record Frame : Type 0 where
  pub attempt : ℕ
  pub trade_id : ℕ
  pub selector : ℕ
  pub started_at : ℕ
  pub attempt_deadline_ms : ℕ
  pub deadline : ℕ
  pub maximum_events : ℕ
  pub maximum_bytes : ℕ

module _ (sha256 : List ℕ → ℕ) where
  -- One turn of the loop, after the source before it.
  unfoldable pub request_for : Frame → Option (List ℕ) → SourceEntry → AttemptResult SourceRequest
  unfolding request_id
  request_for frame prior source = do
    source_id ← bounded_source_id source
    refuse
        (not (after_prior prior source_id)
          || not (is_text source_kind source.kind)
          || not (is_text source_selector source.selector))
        invalid_configuration
    required ← ok_or source.required invalid_configuration
    source_deadline_ms ← bounded_integer source.deadline_ms 100 30000
    refuse (ltb frame.attempt_deadline_ms source_deadline_ms) invalid_configuration
    source_deadline ← absolute_deadline frame.started_at source_deadline_ms frame.deadline
    lookback ← bounded_integer source.lookback_seconds 60 2678400
    ok (record {
      id =
          request_id sha256 frame.attempt source_id required frame.selector frame.started_at
            source_deadline lookback frame.maximum_events frame.maximum_bytes;
      source_id = source_id;
      trade_id = frame.trade_id;
      required = required;
      selector_digest = frame.selector;
      attempt_started_at = frame.started_at;
      deadline = source_deadline;
      lookback_seconds = lookback;
      maximum_events = frame.maximum_events;
      maximum_bytes = frame.maximum_bytes;
    })

  abbrev pub requests_for :
      Frame → Option (List ℕ) → List SourceEntry → AttemptResult (List SourceRequest)
  requests_for frame prior [] = ok []
  requests_for frame prior (source ∷ sources) = do
    request ← request_for frame prior source
    requests ← requests_for frame (some request.source_id) sources
    ok (request ∷ requests)

  abbrev pub some_sources : Option (List SourceEntry) → AttemptResult (List SourceEntry)
  some_sources none = err invalid_configuration
  some_sources (some sources) =
      if between 1 max_sources (length sources) then ok sources else err invalid_configuration

  unfoldable pub from_claim : Lease → Configuration → ℕ → AttemptResult AttemptPlan
  unfolding attempt_id selector_digest attempt_policy_matches
  from_claim lease configuration started_at = do
    refuse (not (is_leased lease.job.state) || lease.job.attempt_count == 0) invalid_input
    refuse (leb lease.lease_expires started_at) lease_expired
    digest ← ok_or configuration.policy_digest invalid_configuration
    refuse (not (digest == lease.job.policy_digest)) policy_mismatch
    policy ← ok_or configuration.job_policy invalid_configuration
    refuse (not (attempt_policy_matches lease.job policy)) policy_mismatch
    attempt_deadline_ms ← bounded_integer configuration.attempt_deadline_ms 100 30000
    deadline ← absolute_deadline started_at attempt_deadline_ms lease.lease_expires
    maximum_events ← bounded_integer configuration.result_events 1 max_result_events
    maximum_bytes ← bounded_integer configuration.result_bytes 1 max_result_bytes
    sources ← some_sources configuration.sources
    let attempt = attempt_id sha256 lease.job.id lease.job.attempt_count
    requests ←
        requests_for
          (record {
            attempt = attempt;
            trade_id = lease.job.trade_id;
            selector = selector_digest sha256 lease.job.trade_id;
            started_at = started_at;
            attempt_deadline_ms = attempt_deadline_ms;
            deadline = deadline;
            maximum_events = maximum_events;
            maximum_bytes = maximum_bytes;
          })
          none sources
    ok (record {
      id = attempt;
      job_id = lease.job.id;
      input_generation = lease.job.input_generation;
      policy_digest = digest;
      attempt_started_at = started_at;
      deadline = deadline;
      requests = requests;
    })
