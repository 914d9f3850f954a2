-- ===== src/Outbox/Progress.antt =====
-- `target_outcome_schedule` of src/publication_execution.rs never leaves a target stuck.
use rhi.Jobs.Swap.{time_after-le}
use rhi.Outbox.Decisions.{
  is_accepted, target_is_blocking, retry_upper_bound, target_is_due, retryable_state,
  target_outcome_schedule, is_submitted, retryable_outcome,
}
use rhi.Outbox.Types.{
  submitted, accepted, rejected, rate_limited, auth_required, failed, unknown, RecordInput,
  TargetRecord, OutboxError, invalid_input, TargetState, target_state, AttemptOutcome,
}
use rhi.Base.{
  ℕ, none, some, true, false, ok, Bool, Option, Result, ◌&&◌, ◌<◌, ltb, ◌≡◌, if◌then◌else◌, ◌≤◌,
  ◌⊎◌, ◌+◌, ◌>>◌, refuse, max_i64, ◌>>=◌, ok_or, keep, leb, checked, not, ◌==◌, inl, inr,
  Bool-cases, arith, lt→ltb, le_or_lt, sym, err_ne_ok, ok-injective, ap, Result-cases, ◌∙◌,
}

-- A target is done, is out of attempts or refused, or has its next attempt within the retry bound.
abbrev pub Settled : RecordInput → TargetRecord → Type 0
Settled input target =
    (is_accepted target.state ≡ true)
    ⊎ (target_is_blocking target input.outbox.max_attempts ≡ true)
    ⊎ ((t : ℕ) × (target.next_attempt ≡ some t)
        × (input.finished_at ≤ t)
        × (t ≤ input.finished_at + retry_upper_bound input.outbox input.attempt_number)
        × (t ≤ max_i64)
        × (target_is_due target input.outbox.max_attempts t ≡ true))

abbrev scheduled : RecordInput → Bool → Result OutboxError (Option ℕ)
scheduled input retries =
    (if retries && ltb input.attempt_number input.outbox.max_attempts
      then (do
        refuse (ltb (retry_upper_bound input.outbox input.attempt_number) input.retry_delay)
            invalid_input
        at ←
            ok_or (keep (λ t. leb t max_i64) (checked (input.finished_at + input.retry_delay)))
              invalid_input
        ok (some at))
      else (do refuse (not (input.retry_delay == 0)) invalid_input; ok none))

le→ltb : (a b : ℕ) → a ≤ b → ltb b a ≡ false
le→ltb a b h = ground arith

time_after-gt :
    (now duration : ℕ)
    → max_i64 < now + duration
    → keep (λ t. leb t max_i64) (checked (now + duration)) ≡ none
time_after-gt now duration out = ground arith

scheduled-some :
    (input : RecordInput) (next : Option ℕ)
    → input.attempt_number < input.outbox.max_attempts
    → scheduled input true ≡ ok next
    → (t : ℕ) × (next ≡ some t)
      × (input.finished_at ≤ t)
      × (t ≤ input.finished_at + retry_upper_bound input.outbox input.attempt_number)
      × (t ≤ max_i64)
scheduled-some input next more h =
    let started = rw (lt→ltb input.attempt_number input.outbox.max_attempts more) at h in
    elim (le_or_lt input.retry_delay (retry_upper_bound input.outbox input.attempt_number)) [
      | inr late ↦ absurd (err_ne_ok (rw (lt→ltb _ _ late) at started))
      | inl within ↦
          let delayed = rw (le→ltb _ _ within) at started in
          elim (le_or_lt (input.finished_at + input.retry_delay) max_i64) [
            | inl early ↦
                let same =
                  ok-injective
                    (rw (time_after-le input.finished_at input.retry_delay early) at delayed) in
                (input.finished_at + input.retry_delay, sym same, omega arith, omega arith, early)
            | inr out ↦
                absurd (
                  err_ne_ok (rw (time_after-gt input.finished_at input.retry_delay out) at delayed))
          ]
    ]

scheduled-none :
    (input : RecordInput) (retries : Bool) (next : Option ℕ)
    → (retries && ltb input.attempt_number input.outbox.max_attempts) ≡ false
    → scheduled input retries ≡ ok next
    → next ≡ none
scheduled-none input retries next last h = elim (Bool-cases (input.retry_delay == 0)) [
  | inl zero_delay ↦ sym (ok-injective (rw (last, zero_delay) at h))
  | inr delayed ↦ absurd (err_ne_ok (rw (last, delayed) at h))
]

pair_state :
    {s s' : TargetState} {n n' : Option ℕ}
    → ◌≡◌ {A = TargetState × Option ℕ} (s, n) (s', n')
    → (s ≡ s') × (n ≡ n')
pair_state h =
    (ap (λ (p : TargetState × Option ℕ). p.0) h, ap (λ (p : TargetState × Option ℕ). p.1) h)

-- A result is the outcome's own state, with what `scheduled` gives.
schedule_parts :
    (input : RecordInput) (state : TargetState) (next : Option ℕ)
    → target_outcome_schedule input ≡ ok (state, next)
    → (is_submitted input.outcome ≡ false)
      × (target_state input.outcome ≡ state)
      × (scheduled input (retryable_outcome input.outcome) ≡ ok next)
unfolding target_outcome_schedule
schedule_parts input state next h = elim (Bool-cases (is_submitted input.outcome)) [
  | inl hit ↦ absurd (err_ne_ok (rw hit at h))
  | inr miss ↦ elim (Result-cases (scheduled input (retryable_outcome input.outcome))) [
    | inr (e, stopped) ↦ absurd (err_ne_ok (rw (miss, stopped) at h))
    | inl (found, done) ↦
        let (same_state, same_next) = pair_state (ok-injective (rw (miss, done) at h)) in
        (miss, same_state, done ∙ ap (λ n. ok n) same_next)
  ]
]

retried_settles :
    (input : RecordInput) (target : TargetRecord)
    → retryable_state target.state ≡ true
    → scheduled input true ≡ ok target.next_attempt
    → target.attempt_count ≡ input.attempt_number
    → Settled input target
unfolding target_is_blocking target_is_due
retried_settles input target retries done same =
    elim (le_or_lt input.outbox.max_attempts input.attempt_number) [
      | inl last ↦
          let gone = scheduled-none input true target.next_attempt (rw (le→ltb _ _ last)) done in
          inr (inl (ground (arith, gone)))
      | inr more ↦
          let (t, next, later, bounded, early) =
            scheduled-some input target.next_attempt more done in
          inr (inr (t, next, later, bounded, early, ground (arith, next)))
    ]

by_outcome :
    (input : RecordInput) (target : TargetRecord) (outcome : AttemptOutcome)
    → is_submitted outcome ≡ false
    → target_state outcome ≡ target.state
    → scheduled input (retryable_outcome outcome) ≡ ok target.next_attempt
    → target.attempt_count ≡ input.attempt_number
    → Settled input target
unfolding target_state target_is_blocking
by_outcome input target submitted other state done same = cc
by_outcome input target accepted other state done same = inl (rw (sym state))
by_outcome input target rejected other state done same = inr (inl (rw (sym state)))
by_outcome input target auth_required other state done same = inr (inl (rw (sym state)))
by_outcome input target rate_limited other state done same =
    retried_settles input target (rw (sym state)) done same
by_outcome input target failed other state done same =
    retried_settles input target (rw (sym state)) done same
by_outcome input target unknown other state done same =
    retried_settles input target (rw (sym state)) done same

-- If `target_outcome_schedule` gives a target its state and next attempt, and the target has the
-- attempt's number, then the target is accepted, blocks the publication, or has a next attempt no
-- earlier than the attempt's end, within the retry bound and the range of times, at which it is
-- due.
pub target_outcome_schedule-Settled :
    (input : RecordInput) (target : TargetRecord)
    → target_outcome_schedule input ≡ ok (target.state, target.next_attempt)
    → target.attempt_count ≡ input.attempt_number
    → Settled input target
target_outcome_schedule-Settled input target h same =
    let (other, state, done) = schedule_parts input target.state target.next_attempt h in
    by_outcome input target input.outcome other state done same
