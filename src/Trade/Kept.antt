-- ===== src/Trade/Kept.antt =====
-- Each insertion of src/state_trade.rs stores its row and keeps every row that is there.
use rhi.Trade.Stored.{
  MutationStored, KeepsEvidence, inserted_or_same-ok, mutation_matches-row, KeepsEvidence-refl,
  EventStored, ObservationStored, event_matches-row,
}
use rhi.Replay.Types.{PersistenceRecord}
use rhi.Trade.Persist.{
  insert_mutation, is_observation, insert_mutation_row, is_event, is_mutation, mutation_row,
  mutation_matches, insert_event, insert_observation, insert_unless, insert_event_row,
  insert_observation_row, observation_row, event_row, event_matches,
}
use rhi.Base.{
  some, true, false, inl, inr, ok, refl, ◌∷◌, Bool, is_some, ℕ, List, find, ◌≡◌, Bool-cases, arith,
  same_bytes_self, ◌⊎◌, ==_self, sym, ==_iff, and_then-ok, true_ne_false, err_ne_ok, ◌∙◌, require,
  require-ok, subst, leb, max_i64, ok-pair,
}
use rhi.Trade.Types.{
  mutation_conflict, signed_event_conflict, MutationRow, EventRow, ObservationRow, TradeTables,
  storage, Observation, mutation_checks, observation_checks, event_checks,
}

pub zero_ne_one : {n : ℕ} → n ≡ 0 → n ≡ 1 → ⊥
zero_ne_one e f = omega arith

-- What the number of rows says of a statement that went well.
pub insert_unless-ok :
    (taken allowed : Bool) (db after : TradeTables) (rows : ℕ) {db' : TradeTables}
    → insert_unless taken allowed db after ≡ ok (rows, db')
    → ((rows ≡ 0) × (taken ≡ true) × (db' ≡ db))
      ⊎ ((rows ≡ 1) × (taken ≡ false) × (allowed ≡ true) × (db' ≡ after))
insert_unless-ok true allowed db after rows h =
    let (number, same) = ok-pair h in inl (sym number, refl, sym same)
insert_unless-ok false true db after rows h =
    let (number, same) = ok-pair h in inr (sym number, refl, refl, sym same)
insert_unless-ok false false db after rows h = absurd (err_ne_ok h)

with_mutation-KeepsEvidence :
    (row : MutationRow) (db : TradeTables)
    → is_some (find (is_mutation row.mutation_id) db.mutations) ≡ false
    → KeepsEvidence db (record db { mutations = row ∷ db.mutations })
with_mutation-KeepsEvidence row db fresh = record {
  rows = record {
    mutations = λ id old h. elim (Bool-cases (is_mutation id row)) [
      | inl same ↦
          let ids : row.mutation_id ≡ id = (==_iff row.mutation_id id).0 same in
          let taken : is_some (find (is_mutation row.mutation_id) db.mutations) ≡ true =
            rw (ids, h) refl in
          absurd (true_ne_false (sym taken ∙ fresh))
      | inr other ↦ rw (other, h) refl
    ];
    events = λ id signature old h. h;
    observations = λ old h. h;
  };
  checkpoints = refl;
  generations = refl;
}

with_event-KeepsEvidence :
    (row : EventRow) (db : TradeTables)
    → is_some (find (is_event row.event_id row.event_signature) db.events) ≡ false
    → KeepsEvidence db (record db { events = row ∷ db.events })
with_event-KeepsEvidence row db fresh = record {
  rows = record {
    mutations = λ id old h. h;
    events = λ id signature old h. elim (Bool-cases (is_event id signature row)) [
      | inl same ↦
          let ids : row.event_id ≡ id = ground arith in
          let signatures : row.event_signature ≡ signature = ground arith in
          let taken : is_some (find (is_event row.event_id row.event_signature) db.events) ≡ true =
            rw (ids, signatures, h) refl in
          absurd (true_ne_false (sym taken ∙ fresh))
      | inr other ↦ rw (other, h) refl
    ];
    observations = λ old h. h;
  };
  checkpoints = refl;
  generations = refl;
}

some_after :
    (p : ObservationRow → Bool) (row : ObservationRow) (rows : List ObservationRow)
    → is_some (find p rows) ≡ true
    → is_some (find p (row ∷ rows)) ≡ true
some_after p row rows h = elim (Bool-cases (p row)) [
  | inl hit ↦ rw hit refl
  | inr miss ↦ rw (miss, h) refl
]

with_observation-KeepsEvidence :
    (row : ObservationRow) (db : TradeTables)
    → KeepsEvidence db (record db { observations = row ∷ db.observations })
with_observation-KeepsEvidence row db = record {
  rows = record {
    mutations = λ id old h. h;
    events = λ id signature old h. h;
    observations = λ old h. some_after (is_observation old) row db.observations h;
  };
  checkpoints = refl;
  generations = refl;
}

is_observation_self : (row : ObservationRow) → is_observation row row ≡ true
is_observation_self row =
    rw
      (
        same_bytes_self row.source_id,
        same_bytes_self row.selector_id,
        ==_self row.evidence_policy_sha256,
        ==_self row.event_id,
        ==_self row.event_signature,
        ==_self row.observed_at_unix_s,
      )
      refl

pub insert_mutation-ok :
    (r : PersistenceRecord) (db : TradeTables) (fresh : Bool) {db' : TradeTables}
    → insert_mutation r db ≡ ok (fresh, db')
    → MutationStored r db' × KeepsEvidence db db'
unfolding insert_mutation insert_mutation_row
insert_mutation-ok r db fresh {db'} h =
    let ((rows, db1), h1, h2) = and_then-ok (insert_mutation_row (mutation_row r) db) h in
    let (_, passes, h3) = and_then-ok (require (mutation_checks (mutation_row r)) storage) h1 in
    let fits = require-ok (mutation_checks (mutation_row r)) storage passes in
    let (same, how) = inserted_or_same-ok (mutation_matches r db1) mutation_conflict rows db1 h2 in
    let stored_by : (d : TradeTables)
        → find (is_mutation r.mutation_id) d.mutations ≡ some (mutation_row r)
        → MutationStored r d =
      λ d found. record { found = found; checked_row = fits } in
    elim (insert_unless-ok (is_some (find (is_mutation r.mutation_id) db.mutations)) true db
      (record db { mutations = mutation_row r ∷ db.mutations }) rows h3) [
        | inl (none_written, _, kept) ↦ elim how [
          | inl (_, _, matched) ↦ (
            stored_by db' (
                subst (λ d. find (is_mutation r.mutation_id) d.mutations ≡ some (mutation_row r))
                  (sym same) (mutation_matches-row r db1 matched)),
            subst (λ d. KeepsEvidence db d) (sym (same ∙ kept)) (KeepsEvidence-refl db),
          )
          | inr (one, _) ↦ absurd (zero_ne_one none_written one)
        ]
        | inr (_, free, _, written) ↦ (
          stored_by db' (
              subst (λ d. find (is_mutation r.mutation_id) d.mutations ≡ some (mutation_row r))
                (sym (same ∙ written)) (rw (==_self r.mutation_id) refl)),
          subst (λ d. KeepsEvidence db d) (sym (same ∙ written))
              (with_mutation-KeepsEvidence (mutation_row r) db free),
        )
      ]

pub insert_event-ok :
    (r : PersistenceRecord) (db : TradeTables) (fresh : Bool) {db' : TradeTables}
    → insert_event r db ≡ ok (fresh, db')
    → EventStored r db' × KeepsEvidence db db'
unfolding insert_event insert_event_row
insert_event-ok r db fresh {db'} h0 =
    let (_, _, h) = and_then-ok (require (leb r.authored_at_unix_s max_i64) storage) h0 in
    let ((rows, db1), h1, h2) = and_then-ok (insert_event_row (event_row r) db) h in
    let (_, passes, h3) = and_then-ok (require (event_checks (event_row r)) storage) h1 in
    let fits = require-ok (event_checks (event_row r)) storage passes in
    let (same, how) = inserted_or_same-ok (event_matches r db1) signed_event_conflict rows db1 h2 in
    let stored_by : (d : TradeTables)
        → find (is_event r.event_id r.event_signature) d.events ≡ some (event_row r)
        → EventStored r d =
      λ d found. record { found = found; checked_row = fits } in
    elim (insert_unless-ok (is_some (find (is_event r.event_id r.event_signature) db.events))
      (is_some (find (is_mutation r.mutation_id) db.mutations)) db
      (record db { events = event_row r ∷ db.events }) rows h3) [
        | inl (none_written, _, kept) ↦ elim how [
          | inl (_, _, matched) ↦ (
            stored_by db' (
                subst
                  (λ d. find (is_event r.event_id r.event_signature) d.events ≡ some (event_row r))
                  (sym same) (event_matches-row r db1 matched)),
            subst (λ d. KeepsEvidence db d) (sym (same ∙ kept)) (KeepsEvidence-refl db),
          )
          | inr (one, _) ↦ absurd (zero_ne_one none_written one)
        ]
        | inr (_, free, _, written) ↦ (
          stored_by db' (
              subst
                (λ d. find (is_event r.event_id r.event_signature) d.events ≡ some (event_row r))
                (sym (same ∙ written)) (rw (==_self r.event_id, ==_self r.event_signature) refl)),
          subst (λ d. KeepsEvidence db d) (sym (same ∙ written))
              (with_event-KeepsEvidence (event_row r) db free),
        )
      ]

pub insert_observation-ok :
    (o : Observation) (db : TradeTables) (fresh : Bool) {db' : TradeTables}
    → insert_observation o db ≡ ok (fresh, db')
    → ObservationStored o db' × KeepsEvidence db db'
unfolding insert_observation insert_observation_row
insert_observation-ok o db fresh {db'} h0 =
    let row = observation_row o in
    let (_, _, h) = and_then-ok (require (leb o.observed_at max_i64) storage) h0 in
    let ((rows, db1), h1, h2) = and_then-ok (insert_observation_row row db) h in
    let (_, passes, h3) = and_then-ok (require (observation_checks row) storage) h1 in
    let fits = require-ok (observation_checks row) storage passes in
    let (same, how) = inserted_or_same-ok (ok true) storage rows db1 h2 in
    let stored_by : (d : TradeTables)
        → is_some (find (is_observation row) d.observations) ≡ true
        → ObservationStored o d =
      λ d found. record { found = found; checked_row = fits } in
    elim (insert_unless-ok (is_some (find (is_observation row) db.observations))
      (is_some (find (is_event row.event_id row.event_signature) db.events)) db
      (record db { observations = row ∷ db.observations }) rows h3) [
        | inl (_, taken, kept) ↦ (
          stored_by db' (
              subst (λ d. is_some (find (is_observation row) d.observations) ≡ true)
                (sym (same ∙ kept)) taken),
          subst (λ d. KeepsEvidence db d) (sym (same ∙ kept)) (KeepsEvidence-refl db),
        )
        | inr (_, _, _, written) ↦ (
          stored_by db' (
              subst (λ d. is_some (find (is_observation row) d.observations) ≡ true)
                (sym (same ∙ written)) (rw (is_observation_self row) refl)),
          subst (λ d. KeepsEvidence db d) (sym (same ∙ written))
              (with_observation-KeepsEvidence row db),
        )
      ]
