-- ===== src/Outbox/Claim.antt =====
-- `claim_next` of src/publication_execution.rs: the lease on the publication that is due first.
use rhi.Outbox.Reads.{read_outbox, decode_outbox, read_targets}
use rhi.Outbox.Decisions.{validate_authority, validate_targets}
use rhi.Outbox.Store.{Tables, TxResult, update_outboxes}
use rhi.Outbox.Statements.{outbox_state_tag, is_leased_outbox, i64_time, one_changed}
use rhi.Base.{
  none, some, ok, err, Bool, List, ℕ, Option, ltb, ◌&&◌, ◌+◌, ◌==◌, is_some_and, least, ◌||◌,
  filter, if◌then◌else◌, leb, ◌=?◌, ◌>>=◌, ◌>>◌, ok_or, keep, max_i64, checked,
}
use rhi.Outbox.Types.{leased, invalid_input, invariant, OutboxRecord, OutboxLease, AuthorityBinding}

abbrev is_pending : OutboxRecord → Bool
is_pending r = outbox_state_tag r.state == 0

-- `READ_CLAIMABLE_OUTBOX_SQL`.
abbrev claimable_outbox : ℕ → OutboxRecord → Bool
claimable_outbox now r = is_pending r && is_some_and (λ t. leb t now) r.next_attempt

abbrev due_key : OutboxRecord → ℕ
due_key r = elim r.next_attempt [ none ↦ 0 | some t ↦ t ]

abbrev outbox_before : OutboxRecord → OutboxRecord → Bool
outbox_before r s =
    ltb (due_key r) (due_key s)
    || (due_key r == due_key s
        && (ltb r.created_at s.created_at || (r.created_at == s.created_at && ltb r.id s.id)))

unfoldable pub next_due : ℕ → Tables → Option OutboxRecord
next_due now db = least outbox_before (filter (claimable_outbox now) db.outboxes)

-- `CLAIM_OUTBOX_SQL`.
abbrev pub claims_outbox : OutboxRecord → ℕ → OutboxRecord → Bool
claims_outbox outbox now r =
    r.id == outbox.id
    && r.revision == outbox.revision
    && is_pending r
    && is_some_and (λ t. leb t now) r.next_attempt
    && leb r.updated_at now

abbrev pub lease_outbox : ℕ → ℕ → ℕ → OutboxRecord → OutboxRecord
lease_outbox owner expires now r = record r {
  state = leased;
  revision = r.revision + 1;
  next_attempt = none;
  lease_owner = some owner;
  lease_expires = some expires;
  updated_at = now;
}

abbrev pub leased_by : ℕ → ℕ → Option OutboxRecord → TxResult OutboxRecord
leased_by owner expires none = err invariant
leased_by owner expires (some r) =
    if is_leased_outbox r && r.lease_owner =? some owner && r.lease_expires =? some expires
    then ok r
    else err invariant

abbrev pub outbox_lease : ℕ → ℕ → OutboxRecord → OutboxLease
outbox_lease owner expires outbox = record { outbox = outbox; owner = owner; expires_at = expires }

module _ (sha256 : List ℕ → ℕ) (authority : AuthorityBinding) (owner now : ℕ) where
  unfoldable pub claim_due : Option OutboxRecord → Tables → TxResult (Option OutboxLease × Tables)
  claim_due none db = ok (none, db)
  claim_due (some row) db = do
    outbox ← decode_outbox row
    validate_authority outbox authority
    targets ← read_targets outbox.id db
    validate_targets sha256 outbox targets
    expires ←
        ok_or (keep (λ t. leb t max_i64) (checked (now + outbox.attempt_deadline_ms))) invalid_input
    revision ← i64_time outbox.revision
    changed ← update_outboxes (claims_outbox outbox now) (lease_outbox owner expires now) db
    db' ← one_changed changed
    found ← read_outbox outbox.id db'
    current ← leased_by owner expires found
    ok (some (outbox_lease owner expires current), db')

  unfoldable pub claim_publication : Tables → TxResult (Option OutboxLease × Tables)
  claim_publication db = do at ← i64_time now; claim_due (next_due at db) db
