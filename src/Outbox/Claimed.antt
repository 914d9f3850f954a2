-- ===== src/Outbox/Claimed.antt =====
-- The lease that `claim_next` of src/publication_execution.rs returns.
use rhi.Outbox.Written.{read_outbox-found}
use rhi.Outbox.Claim.{
  claim_due, claim_publication, outbox_lease, leased_by, next_due, claims_outbox, lease_outbox,
}
use rhi.Outbox.Store.{Tables, update_outboxes}
use rhi.Outbox.Decisions.{same_outbox_identity, validate_authority, validate_targets}
use rhi.Outbox.Reads.{decode_outbox, read_outbox, read_targets}
use rhi.Outbox.Statements.{
  same_outbox, validate_lease, current_outbox, i64_time, is_leased_outbox, outbox_state_tag,
  one_changed,
}
use rhi.Base.{
  none, some, true, false, inl, inr, ok, err, refl, List, ℕ, Option, ok_or, ◌≡◌, and_then-ok, keep,
  some_ne_none, ◌=?◌, ◌≤◌, =?_iff, arith, leb, sym, ◌<◌, ==_self, Option-cases, ap, err_ne_ok,
  max_i64, not, Bool-cases, checked, ok-injective, ◌||◌, ◌∙◌, ==_iff, subst, ◌&&◌, ◌+◌,
  find-Contains, then_ok, refuse, ◌==◌,
}
use mathlib.Core.Option.{some-injective}
use rhi.Outbox.Types.{
  invalid_input, invariant, lease_lost, OutboxRecord, OutboxLease, AuthorityBinding,
}

same_outbox_self : (r : OutboxRecord) → same_outbox r r ≡ true
unfolding same_outbox same_outbox_identity
same_outbox_self r =
    let self : (o : Option ℕ) → (o =? o) ≡ true = λ o. (=?_iff o o).1 refl in
    rw
      (
        self r.next_attempt,
        self r.lease_owner,
        self r.lease_expires,
        ==_self (outbox_state_tag r.state),
      )
      (ground arith)

leased_by-ok :
    (owner expires : ℕ) (o : Option OutboxRecord) (r : OutboxRecord)
    → leased_by owner expires o ≡ ok r
    → (o ≡ some r)
      × (is_leased_outbox r ≡ true)
      × ((r.lease_owner =? some owner) ≡ true)
      × ((r.lease_expires =? some expires) ≡ true)
leased_by-ok owner expires none r e = absurd (err_ne_ok e)
leased_by-ok owner expires (some s) r e =
    elim (Bool-cases
      (is_leased_outbox s && s.lease_owner =? some owner && s.lease_expires =? some expires)) [
        | inl held ↦
            let e' : ok s ≡ ok r = rw held at e in
            let same = ok-injective e' in
            let held_r : (is_leased_outbox r
                  && r.lease_owner =? some owner
                  && r.lease_expires =? some expires)
                ≡ true =
              subst
                (λ z.
                  (is_leased_outbox z
                    && z.lease_owner =? some owner
                    && z.lease_expires =? some expires)
                  ≡ true)
                same held in
            (ap some same, ground arith, ground arith, ground arith)
        | inr free ↦ let e' : err invariant ≡ ok r = rw free at e in absurd (err_ne_ok e')
      ]

current_outbox_self :
    (owner expires : ℕ) (r : OutboxRecord)
    → current_outbox (outbox_lease owner expires r) (some r) ≡ ok r
current_outbox_self owner expires r = rw (same_outbox_self r) refl

-- A lease that is read back is valid until it expires.
outbox_lease-valid :
    (owner expires now : ℕ) (db : Tables) (id : ℕ) (o : Option OutboxRecord) (r : OutboxRecord)
    → read_outbox id db ≡ ok o
    → leased_by owner expires o ≡ ok r
    → r.id ≡ id
    → now < expires
    → validate_lease (outbox_lease owner expires r) now true db ≡ ok tt
unfolding validate_lease
outbox_lease-valid owner expires now db id o r read is_r same later =
    let (is_some_r, held, owned, ends) = leased_by-ok owner expires o r is_r in
    let early : leb expires now ≡ false = ground arith in
    let passed : (not (is_leased_outbox r)
          || not (r.lease_owner =? some owner)
          || not (r.lease_expires =? some expires)
          || (true && leb expires now))
        ≡ false =
      rw (held, owned, ends, early) refl in
    then_ok _ _ (ap (λ i. read_outbox i db) same ∙ read ∙ ap ok is_some_r)
      (then_ok _ _ (current_outbox_self owner expires r) (ap (λ b. refuse b lease_lost) passed))

deadline_pos :
    (row outbox : OutboxRecord) → decode_outbox row ≡ ok outbox → 1 ≤ outbox.attempt_deadline_ms
unfolding decode_outbox
deadline_pos row outbox e = ground arith

expires_later :
    (now deadline expires : ℕ)
    → ok_or (keep (λ t. leb t max_i64) (checked (now + deadline))) invalid_input ≡ ok expires
    → 1 ≤ deadline
    → now < expires
expires_later now deadline expires e long = ground arith

module _ (sha256 : List ℕ → ℕ) (authority : AuthorityBinding) (owner now : ℕ) where
  claim_due-valid :
      (row : OutboxRecord) (db db' : Tables) (lease : OutboxLease)
      → claim_due sha256 authority owner now (some row) db ≡ ok (some lease, db')
      → validate_lease lease now true db' ≡ ok tt
  unfolding claim_due
  claim_due-valid row db db' lease e =
      let (outbox, decoded, e1) = and_then-ok (decode_outbox row) e in
      let (_, _, e2) = and_then-ok (validate_authority outbox authority) e1 in
      let (targets, _, e3) = and_then-ok (read_targets outbox.id db) e2 in
      let (_, _, e4) = and_then-ok (validate_targets sha256 outbox targets) e3 in
      let (expires, is_expires, e5) =
        and_then-ok
          (ok_or (keep (λ t. leb t max_i64) (checked (now + outbox.attempt_deadline_ms)))
            invalid_input)
          e4 in
      let (_, _, e6) = and_then-ok (i64_time outbox.revision) e5 in
      let (changed, _, e7) =
        and_then-ok (update_outboxes (claims_outbox outbox now) (lease_outbox owner expires now) db)
          e6 in
      let (last, _, e8) = and_then-ok (one_changed changed) e7 in
      let (found, read, e9) = and_then-ok (read_outbox outbox.id last) e8 in
      let (current, is_current, e10) = and_then-ok (leased_by owner expires found) e9 in
      read_back outbox.id expires last db' found current lease read is_current
        (expires_later now outbox.attempt_deadline_ms expires is_expires
          (deadline_pos row outbox decoded))
        (ok-injective e10)
    where
      read_back :
          (id expires : ℕ) (last db' : Tables) (found : Option OutboxRecord)
          (current : OutboxRecord) (lease : OutboxLease)
          → read_outbox id last ≡ ok found
          → leased_by owner expires found ≡ ok current
          → now < expires
          → ◌≡◌ {A = Option OutboxLease × Tables}
              (some (outbox_lease owner expires current), last)
              (some lease, db')
          → validate_lease lease now true db' ≡ ok tt
      read_back id expires last db' found current lease read is_current later pair =
          let some_current = (leased_by-ok owner expires found current is_current).0 in
          let at = read_outbox-found id last current (read ∙ ap ok some_current) in
          let same =
            (==_iff current.id id).0 (find-Contains (λ s. s.id == id) last.outboxes current at).1 in
          let to_lease : outbox_lease owner expires current ≡ lease =
            some-injective _ _ (ap (λ (o : Option OutboxLease × Tables). o.0) pair) in
          subst (λ l. validate_lease l now true db' ≡ ok tt) to_lease
            (subst (λ d. validate_lease (outbox_lease owner expires current) now true d ≡ ok tt)
              (ap (λ (o : Option OutboxLease × Tables). o.1) pair)
              (outbox_lease-valid owner expires now last id found current read is_current same
                later))

  claim_due-none :
      (db db' : Tables) (lease : OutboxLease)
      → claim_due sha256 authority owner now none db ≡ ok (some lease, db')
      → ⊥
  unfolding claim_due
  claim_due-none db db' lease e =
      some_ne_none (sym (ap (λ (o : Option OutboxLease × Tables). o.0) (ok-injective e)))

  -- The lease that a claim of a publication returns is valid, by `validate_lease` with the check
  -- of its expiry, at the time of the claim on the tables that the claim leaves.
  pub claim_publication-validate_lease :
      (db db' : Tables) (lease : OutboxLease)
      → claim_publication sha256 authority owner now db ≡ ok (some lease, db')
      → validate_lease lease now true db' ≡ ok tt
  unfolding claim_publication
  claim_publication-validate_lease db db' lease e =
      let (at, _, e1) = and_then-ok (i64_time now) e in
      elim (Option-cases (next_due at db)) [
        | inl idle ↦
            let e2 =
              subst (λ o. claim_due sha256 authority owner now o db ≡ ok (some lease, db')) idle
                e1 in
            absurd (claim_due-none db db' lease e2)
        | inr (row, due) ↦
            claim_due-valid row db db' lease
              (subst (λ o. claim_due sha256 authority owner now o db ≡ ok (some lease, db')) due e1)
      ]
