-- ===== src/Outbox/Written.antt =====
-- What the reads of src/publication_execution.rs find after the writes of `record_new`.
use rhi.Outbox.Store.{
  update_outboxes, update_targets, Tables, insert_attempt_row, attempt_checks, at_outbox, on_target,
  outbox_checks, outbox_guard,
}
use rhi.Outbox.Statements.{
  insert_attempt, validate_lease, current_outbox, one_changed, same_outbox, attempt_record,
  is_leased_outbox,
}
use rhi.Outbox.Reads.{decode_outbox, read_outbox, decode_found}
use rhi.Base.{
  none, some, true, inl, inr, ok, err, ◌∷◌, Option, ℕ, Bool, ◌≡◌, all, and_then-ok, arith, find,
  update_where, err_ne_ok, not, refuse-ok, ◌==◌, Bool-cases, Option-cases, ◌||◌, ◌∙◌, ap,
  ok-injective, some_ne_none, ◌=?◌, subst, sym, ◌&&◌, ◌<◌, count,
}
use mathlib.Core.Option.{some-injective}
use rhi.Outbox.Types.{lease_lost, storage, OutboxRecord, RecordInput, OutboxLease, TargetRecord}

decode_outbox-same : (row r : OutboxRecord) → decode_outbox row ≡ ok r → r ≡ row
unfolding decode_outbox
decode_outbox-same row r e = ground arith

pub read_outbox-found :
    (id : ℕ) (db : Tables) (r : OutboxRecord)
    → read_outbox id db ≡ ok (some r)
    → find (λ s. s.id == id) db.outboxes ≡ some r
unfolding read_outbox
read_outbox-found id db r e = elim (Option-cases (find (λ s. s.id == id) db.outboxes)) [
  | inl absent ↦
      let e' : ok none ≡ ok (some r) = rw absent at e in
      absurd (some_ne_none (sym (ok-injective e')))
  | inr (row, found) ↦
      let e' : decode_found decode_outbox (some row) ≡ ok (some r) = rw found at e in
      let (t, one, e2) = and_then-ok (decode_outbox row) e' in
      found ∙ ap some (sym (decode_outbox-same row t one) ∙ some-injective _ _ (ok-injective e2))
]

-- The outbox of a lease that is valid.
pub record LeaseHeld (lease : OutboxLease) (now : ℕ) (db : Tables) : Type 0 where
  pub current : OutboxRecord
  pub found : find (λ r. r.id == lease.outbox.id) db.outboxes ≡ some current
  pub same : same_outbox current lease.outbox ≡ true
  pub held : is_leased_outbox current ≡ true
  pub owner : (current.lease_owner =? some lease.owner) ≡ true
  pub expires : (current.lease_expires =? some lease.expires_at) ≡ true
  pub unexpired : now < lease.expires_at

current_outbox-some :
    (lease : OutboxLease) (o : Option OutboxRecord) (r : OutboxRecord)
    → current_outbox lease o ≡ ok r
    → (o ≡ some r) × (same_outbox r lease.outbox ≡ true)
current_outbox-some lease none r e = absurd (err_ne_ok e)
current_outbox-some lease (some s) r e = elim (Bool-cases (same_outbox s lease.outbox)) [
  | inl same ↦
      let e' : ok s ≡ ok r = rw same at e in
      let one = ok-injective e' in
      (ap some one, subst (λ z. same_outbox z lease.outbox ≡ true) one same)
  | inr other ↦ let e' : err lease_lost ≡ ok r = rw other at e in absurd (err_ne_ok e')
]

pub validate_lease-LeaseHeld :
    (lease : OutboxLease) (now : ℕ) (db : Tables)
    → validate_lease lease now true db ≡ ok tt
    → LeaseHeld lease now db
unfolding validate_lease
validate_lease-LeaseHeld lease now db e =
    let (o, read, e1) = and_then-ok (read_outbox lease.outbox.id db) e in
    let (r, is_current, e2) = and_then-ok (current_outbox lease o) e1 in
    let (some_r, same) = current_outbox-some lease o r is_current in
    let passed = refuse-ok _ _ e2 in
    record {
      current = r;
      found = read_outbox-found lease.outbox.id db r (read ∙ ap ok some_r);
      same = same;
      held = ground arith;
      owner = ground arith;
      expires = ground arith;
      unexpired = ground arith;
    }

pub update_outboxes-ok :
    (p : OutboxRecord → Bool) (f : OutboxRecord → OutboxRecord) (db d : Tables) (n : ℕ)
    → update_outboxes p f db ≡ ok (n, d)
    → (all (λ r. not (p r) || (outbox_checks (f r) && outbox_guard r (f r))) db.outboxes ≡ true)
      × (n ≡ count p db.outboxes)
      × (d ≡ record db { outboxes = update_where p f db.outboxes })
unfolding update_outboxes
update_outboxes-ok p f db d n e =
    elim (Bool-cases
      (all (λ r. not (p r) || (outbox_checks (f r) && outbox_guard r (f r))) db.outboxes)) [
        | inl fits ↦
            let e' : ok (count p db.outboxes, record db { outboxes = update_where p f db.outboxes })
                ≡ ok (n, d) =
              rw fits at e in
            let pair = ok-injective e' in
            (fits, sym (ap (λ (o : ℕ × Tables). o.0) pair), sym (ap (λ (o : ℕ × Tables). o.1) pair))
        | inr breaks ↦ let e' : err storage ≡ ok (n, d) = rw breaks at e in absurd (err_ne_ok e')
      ]

pub update_targets-ok :
    (id : ℕ) (p : TargetRecord → Bool) (f : TargetRecord → TargetRecord) (db d : Tables) (n : ℕ)
    → update_targets id p f db ≡ ok (n, d)
    → d ≡ record db { targets = update_where (at_outbox id p) (on_target f) db.targets }
unfolding update_targets
update_targets-ok id p f db d n e = ground arith

pub one_changed-ok :
    (changed : ℕ × Tables) (db : Tables)
    → one_changed changed ≡ ok db
    → (changed.0 ≡ 1) × (changed.1 ≡ db)
one_changed-ok (n, d) db e = (ground arith, ground arith)

pub insert_attempt-ok :
    (input : RecordInput) (db d : Tables)
    → insert_attempt input db ≡ ok d
    → (attempt_checks (attempt_record input) ≡ true)
      × (d ≡ record db { attempts = attempt_record input ∷ db.attempts })
unfolding insert_attempt insert_attempt_row
insert_attempt-ok input db d e = (ground arith, ground arith)
