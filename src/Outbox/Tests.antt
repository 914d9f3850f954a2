-- ===== src/Outbox/Tests.antt =====
-- The decisions of src/publication_execution.rs for a publication with one required target.
use rhi.Outbox.Backoff.{retry_upper_bound-doubled}
use rhi.Outbox.Disposition.{Disposed, disposition-cases}
use rhi.Outbox.Progress.{Settled, target_outcome_schedule-Settled}
use rhi.Outbox.Decisions.{retry_upper_bound, target_outcome_schedule, validate_targets}
use rhi.Outbox.Types.{failed, leased, OutboxRecord, RecordInput, TargetRecord, target_state}
use rhi.Base.{ℕ, refl, [], none, some, true, inr, ok, ◌∷◌, List, be_bytes, length, ◌≡◌, arith}

abbrev constant_hash : List ℕ → ℕ
constant_hash bytes = length bytes

abbrev target : TargetRecord
target = record {
  ordinal = 0;
  relay_id = 114 ∷ 49 ∷ [];
  required = true;
  state = failed;
  revision = 3;
  attempt_count = 1;
  next_attempt = some 20700;
  last_attempt_id = some 6;
  updated_at = 20000;
}

abbrev outbox : OutboxRecord
outbox = record {
  id = 1;
  event_sha256 = 2;
  authority_sha256 = 3;
  target_set_sha256 = 58;
  target_count = 1;
  required_target_count = 1;
  max_attempts = 3;
  initial_backoff_ms = 500;
  maximum_backoff_ms = 60000;
  attempt_deadline_ms = 30000;
  state = leased;
  revision = 2;
  next_attempt = none;
  lease_owner = some 9;
  lease_expires = some 40000;
  created_at = 1000;
  updated_at = 10000;
}

abbrev input : RecordInput
input = record {
  outbox = outbox;
  owner = 9;
  expires_at = 40000;
  target_ordinal = 0;
  target_revision = 2;
  attempt_number = 1;
  attempt_id = 6;
  started_at = 10000;
  finished_at = 20300;
  outcome = failed;
  retry_delay = 400;
}

outcome_result : target_outcome_schedule input ≡ ok (failed, some 20700)
unfolding target_outcome_schedule retry_upper_bound target_state
outcome_result = refl

target_outcome_schedule-Settled_example : Settled input target
target_outcome_schedule-Settled_example =
    target_outcome_schedule-Settled input target outcome_result refl

retry_upper_bound-doubled_example : retry_upper_bound outbox 5 ≡ 8000
retry_upper_bound-doubled_example = retry_upper_bound-doubled outbox 4 (omega arith)

targets_pass : validate_targets constant_hash outbox (target ∷ []) ≡ ok tt
unfolding validate_targets be_bytes
targets_pass = refl

disposition-cases_example : Disposed constant_hash outbox (target ∷ [])
disposition-cases_example =
    disposition-cases constant_hash outbox (target ∷ []) targets_pass
      ((λ needed. inr (inr (20700, refl))), tt)
