-- ===== src/Outbox/RecordTests.antt =====
-- `record_outcome` of src/publication_execution.rs at a publication with one submitted target.
use rhi.Outbox.Claimed.{claim_publication-validate_lease}
use rhi.Outbox.Claim.{claim_publication, claim_due, outbox_lease, next_due}
use rhi.Outbox.Decisions.{
  valid_outbox_shape, same_outbox_identity, target_outcome_schedule, retry_upper_bound, disposition,
  validate_targets, target_is_blocking, validate_authority,
}
use rhi.Outbox.Reads.{read_attempt, read_outbox, decode_outbox, read_targets, decode_target}
use rhi.Outbox.Twice.{record_outcome-again}
use rhi.Outbox.Repeat.{OneEach}
use rhi.Outbox.Record.{record_outcome, record_new, submitted_target, write_attempt, close_attempt}
use rhi.Outbox.Statements.{
  committed, write_disposition, write_outcome, attempt_record, validate_lease, same_outbox,
  insert_attempt, update_outbox_after_attempt,
}
use rhi.Outbox.Store.{
  Tables, insert_attempt_row, attempt_checks, update_targets, target_checks, target_guard,
  update_outboxes, outbox_checks, outbox_guard,
}
use rhi.Base.{[], none, some, true, ok, refl, ◌∷◌, List, arith, ℕ, ◌≡◌, length, be_bytes}
use rhi.Outbox.Types.{AuthorityBinding}
use rhi.Outbox.Types.{
  submitted, failed, pending, leased, AttemptOutcome, OutboxRecord, RecordInput, TargetRecord,
  AttemptCommit, target_state,
}

abbrev constant_hash : List ℕ → ℕ
constant_hash bytes = length bytes

abbrev in_flight : TargetRecord
in_flight = record {
  ordinal = 0;
  relay_id = 114 ∷ 49 ∷ [];
  required = true;
  state = submitted;
  revision = 2;
  attempt_count = 1;
  next_attempt = none;
  last_attempt_id = some 6;
  updated_at = 10000;
}

abbrev leased_outbox : OutboxRecord
leased_outbox = record {
  id = 1;
  event_sha256 = 2;
  authority_sha256 = 3;
  target_set_sha256 = 58;
  target_count = 1;
  required_target_count = 1;
  max_attempts = 3;
  initial_backoff_ms = 500;
  maximum_backoff_ms = 60000;
  attempt_deadline_ms = 30000;
  state = leased;
  revision = 2;
  next_attempt = none;
  lease_owner = some 9;
  lease_expires = some 40000;
  created_at = 1000;
  updated_at = 10000;
}

abbrev input : RecordInput
input = record {
  outbox = leased_outbox;
  owner = 9;
  expires_at = 40000;
  target_ordinal = 0;
  target_revision = 2;
  attempt_number = 1;
  attempt_id = 6;
  started_at = 10000;
  finished_at = 20300;
  outcome = AttemptOutcome.failed;
  retry_delay = 400;
}

abbrev before : Tables
before = record {
  outboxes = leased_outbox ∷ [];
  targets = record { outbox_id = 1; target = in_flight } ∷ [];
  attempts = [];
}

abbrev after : Tables
after = record {
  outboxes =
      write_disposition (record { state = pending; next_attempt = some 20700 }) 20300 leased_outbox
      ∷ [];
  targets =
      record { outbox_id = 1; target = write_outcome failed (some 20700) 20300 in_flight } ∷ [];
  attempts = attempt_record input ∷ [];
}

abbrev the_commit : AttemptCommit
the_commit = committed input failed pending

records_failure : record_outcome constant_hash input before ≡ ok (the_commit, after)
unfolding record_outcome record_new submitted_target write_attempt close_attempt read_attempt
    validate_lease read_outbox decode_outbox valid_outbox_shape same_outbox same_outbox_identity
    read_targets decode_target insert_attempt insert_attempt_row attempt_checks
    target_outcome_schedule retry_upper_bound target_state update_targets target_checks target_guard
    disposition validate_targets be_bytes target_is_blocking update_outbox_after_attempt
    update_outboxes outbox_checks outbox_guard
records_failure = refl

before-OneEach : OneEach before
before-OneEach id = ground arith

record_outcome-again_example : record_outcome constant_hash input after ≡ ok (the_commit, after)
record_outcome-again_example =
    record_outcome-again constant_hash input before after the_commit before-OneEach records_failure

abbrev pending_outbox : OutboxRecord
pending_outbox = record {
  id = 1;
  event_sha256 = 2;
  authority_sha256 = 3;
  target_set_sha256 = 58;
  target_count = 1;
  required_target_count = 1;
  max_attempts = 3;
  initial_backoff_ms = 500;
  maximum_backoff_ms = 60000;
  attempt_deadline_ms = 30000;
  state = pending;
  revision = 1;
  next_attempt = some 9000;
  lease_owner = none;
  lease_expires = none;
  created_at = 1000;
  updated_at = 1000;
}

abbrev the_authority : AuthorityBinding
the_authority = record {
  authority_sha256 = 3;
  target_set_sha256 = 58;
  target_count = 1;
  required_target_count = 1;
  max_attempts = 3;
  initial_backoff_ms = 500;
  maximum_backoff_ms = 60000;
  attempt_deadline_ms = 30000;
}

claims_first :
    claim_publication constant_hash the_authority 9 10000
      (record before { outboxes = pending_outbox ∷ [] })
    ≡ ok (some (outbox_lease 9 40000 leased_outbox), before)
unfolding claim_publication claim_due next_due decode_outbox valid_outbox_shape validate_authority
    read_targets decode_target validate_targets be_bytes update_outboxes outbox_checks outbox_guard
    same_outbox_identity read_outbox
claims_first = refl

claim_publication-validate_lease_example :
    validate_lease (outbox_lease 9 40000 leased_outbox) 10000 true before ≡ ok tt
claim_publication-validate_lease_example =
    claim_publication-validate_lease constant_hash the_authority 9 10000
      (record before { outboxes = pending_outbox ∷ [] }) before (outbox_lease 9 40000 leased_outbox)
      claims_first
