-- ===== src/Outbox/Decisions.antt =====
-- The decisions of src/publication_execution.rs, from `reconcile_recorded` on, that read no table.
use rhi.Jobs.Types.{saturating_mul}
use rhi.Outbox.Types.{
  pending, submitted, accepted, rejected, rate_limited, auth_required, failed, unknown, leased,
  complete, blocked, invalid_input, invariant, AttemptOutcome, OutboxDisposition, OutboxRecord,
  OutboxState, TargetRecord, TargetState, target_state, AuthorityBinding, OutboxError, RecordInput,
}
use rhi.Base.{
  same_bytes, bit, ℕ, [], none, some, true, false, ok, zero, suc, ◌∷◌, Bool, List, Option, min,
  Result, all, any, be_bytes, if◌then◌else◌, is_some, not, ◌&&◌, ◌-◌, ◌==◌, ◌||◌, is_none, leb, ltb,
  ◌++◌, is_some_and, length, refuse, ◌>>◌, ◌+◌, ◌>>=◌, count, ok_or, keep, require, domain, max_i64,
  checked,
}

abbrev pub is_accepted : TargetState → Bool
is_accepted accepted = true
is_accepted _ = false

abbrev pub retryable_state : TargetState → Bool
retryable_state pending = true
retryable_state failed = true
retryable_state rate_limited = true
retryable_state unknown = true
retryable_state _ = false

abbrev pub retryable_outcome : AttemptOutcome → Bool
retryable_outcome rate_limited = true
retryable_outcome failed = true
retryable_outcome unknown = true
retryable_outcome _ = false

abbrev pub is_submitted : AttemptOutcome → Bool
is_submitted submitted = true
is_submitted _ = false

-- `matches!(state, Rejected | AuthRequired)`.
abbrev pub refused_for_good : TargetState → Bool
refused_for_good rejected = true
refused_for_good auth_required = true
refused_for_good _ = false

unfoldable pub target_is_blocking : TargetRecord → ℕ → Bool
target_is_blocking target max_attempts =
    refused_for_good target.state
    || (retryable_state target.state
        && leb max_attempts target.attempt_count
        && is_none target.next_attempt)

unfoldable pub target_is_due : TargetRecord → ℕ → ℕ → Bool
target_is_due target max_attempts now =
    retryable_state target.state
    && ltb target.attempt_count max_attempts
    && is_some_and (λ next. leb next now) target.next_attempt

-- The loop of `retry_upper_bound`.
abbrev pub doubling : ℕ → ℕ → ℕ → ℕ
doubling zero bound maximum = bound
doubling (suc n) bound maximum = doubling n (min (saturating_mul bound 2) maximum) maximum

unfoldable pub retry_upper_bound : OutboxRecord → ℕ → ℕ
retry_upper_bound outbox attempt_number =
    min (doubling (attempt_number - 1) outbox.initial_backoff_ms outbox.maximum_backoff_ms)
      outbox.maximum_backoff_ms

unfoldable pub target_outcome_schedule : RecordInput → Result OutboxError (TargetState × Option ℕ)
unfolding retry_upper_bound target_state
target_outcome_schedule input = do
  refuse (is_submitted input.outcome) invalid_input
  let retried : Result OutboxError (Option ℕ) = (do
    refuse (ltb (retry_upper_bound input.outbox input.attempt_number) input.retry_delay)
        invalid_input
    at ←
        ok_or (keep (λ t. leb t max_i64) (checked (input.finished_at + input.retry_delay)))
          invalid_input
    ok (some at))
  let final : Result OutboxError (Option ℕ) = (do
    refuse (not (input.retry_delay == 0)) invalid_input
    ok none)
  next ←
      (if retryable_outcome input.outcome && ltb input.attempt_number input.outbox.max_attempts
        then retried
        else final)
  ok (target_state input.outcome, next)

-- `targets.iter().enumerate().any(|(index, target)| target.ordinal != index)`, denied.
abbrev in_order : ℕ → List TargetRecord → Bool
in_order index [] = true
in_order index (target ∷ targets) = target.ordinal == index && in_order (suc index) targets

abbrev distinct_relays : List TargetRecord → Bool
distinct_relays [] = true
distinct_relays (target ∷ targets) =
    not (any (λ other. same_bytes other.relay_id target.relay_id) targets)
    && distinct_relays targets

abbrev target_bytes : List TargetRecord → List ℕ
target_bytes [] = []
target_bytes (target ∷ targets) =
    be_bytes 4 target.ordinal
    ++ (be_bytes 8 (length target.relay_id)
        ++ (target.relay_id ++ (bit target.required ∷ target_bytes targets)))

abbrev target_ordinal_maximum : ℕ
target_ordinal_maximum = 31

-- `required.filter_map(|target| target.next_attempt).min()`.
abbrev earlier : Option ℕ → Option ℕ → Option ℕ
earlier none b = b
earlier (some a) none = some a
earlier (some a) (some b) = some (min a b)

abbrev pub next_required : List TargetRecord → Option ℕ
next_required [] = none
next_required (target ∷ targets) =
    let rest = next_required targets in
    if target.required then earlier target.next_attempt rest else rest

abbrev pub complete_disposition : OutboxDisposition
complete_disposition = record { state = complete; next_attempt = none }

abbrev pub blocked_disposition : OutboxDisposition
blocked_disposition = record { state = blocked; next_attempt = none }

abbrev pub pending_disposition : ℕ → OutboxDisposition
pending_disposition next = record { state = pending; next_attempt = some next }

abbrev pub all_accepted : List TargetRecord → Bool
all_accepted targets = all (λ target. not target.required || is_accepted target.state) targets

abbrev pub some_blocking : ℕ → List TargetRecord → Bool
some_blocking max_attempts targets =
    any (λ target. target.required && target_is_blocking target max_attempts) targets

module _ (sha256 : List ℕ → ℕ) where
  unfoldable pub validate_targets : OutboxRecord → List TargetRecord → Result OutboxError (Unit {0})
  validate_targets outbox targets = do
    refuse
        (not (length targets == outbox.target_count)
          || ltb (target_ordinal_maximum + 1) (length targets)
          || not (in_order 0 targets)
          || not (count (λ target. target.required) targets == outbox.required_target_count))
        invariant
    refuse (not (distinct_relays targets)) invariant
    require
        (sha256 (
            domain "radroots.rhi.publication_target_set.v1"
            ++ (be_bytes 4 outbox.target_count ++ target_bytes targets))
          == outbox.target_set_sha256)
        invariant

  unfoldable pub disposition :
      OutboxRecord → List TargetRecord → Result OutboxError OutboxDisposition
  disposition outbox targets = do
    validate_targets outbox targets
    let waiting : Result OutboxError OutboxDisposition = (do
      next ← ok_or (next_required targets) invariant
      ok (pending_disposition next))
    (if all_accepted targets
        then ok complete_disposition
        else (if some_blocking outbox.max_attempts targets
            then ok blocked_disposition
            else waiting))

unfoldable pub same_outbox_identity : OutboxRecord → OutboxRecord → Bool
same_outbox_identity current prior =
    current.id == prior.id
    && current.event_sha256 == prior.event_sha256
    && current.authority_sha256 == prior.authority_sha256
    && current.target_set_sha256 == prior.target_set_sha256
    && current.target_count == prior.target_count
    && current.required_target_count == prior.required_target_count
    && current.max_attempts == prior.max_attempts
    && current.initial_backoff_ms == prior.initial_backoff_ms
    && current.maximum_backoff_ms == prior.maximum_backoff_ms
    && current.attempt_deadline_ms == prior.attempt_deadline_ms
    && current.created_at == prior.created_at

unfoldable pub validate_authority : OutboxRecord → AuthorityBinding → Result OutboxError (Unit {0})
validate_authority outbox authority =
    refuse
      (not (outbox.authority_sha256 == authority.authority_sha256)
        || not (outbox.target_set_sha256 == authority.target_set_sha256)
        || not (outbox.target_count == authority.target_count)
        || not (outbox.required_target_count == authority.required_target_count)
        || not (outbox.max_attempts == authority.max_attempts)
        || not (outbox.initial_backoff_ms == authority.initial_backoff_ms)
        || not (outbox.maximum_backoff_ms == authority.maximum_backoff_ms)
        || not (outbox.attempt_deadline_ms == authority.attempt_deadline_ms))
      invariant

unfoldable pub valid_outbox_shape : OutboxState → Option ℕ → Option ℕ → Option ℕ → Bool
valid_outbox_shape pending next owner expires = is_some next && is_none owner && is_none expires
valid_outbox_shape leased next owner expires =
    is_none next && is_some owner && is_some_and (ltb 0) expires
valid_outbox_shape _ next owner expires = is_none next && is_none owner && is_none expires
