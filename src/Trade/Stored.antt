-- ===== src/Trade/Stored.antt =====
-- What `insert_mutation`, `insert_event` and `insert_observation` of src/state_trade.rs leave stored.
use rhi.Trade.Types.{
  MutationRow, EventRow, TradeTables, Observation, ObservationRow, event_checks, mutation_checks,
  observation_checks, storage, PersistenceError,
}
use rhi.Trade.Persist.{
  mutation_matches, PersistResult, is_event, is_mutation, is_observation, and_also, bounded_blob,
  event_row, mutation_row, observation_row, event_matches, inserted_or_same,
}
use rhi.Replay.Types.{PersistenceRecord}
use rhi.Base.{
  ok, some, true, false, refl, Bool, find, is_some, ℕ, ◌∙◌, List, ◌≡◌, true_ne_false, and_then-ok,
  sym, ok-injective, ok_or, require, between, length, ok_or-ok, find-Contains, ◌==◌, same_bytes,
  ◌&&◌, arith, inl, inr, zero, suc, same_bytes_eq, ap, ◌⊎◌, require-ok, err_ne_ok, ok-pair,
}

-- A record's rows are in the tables, as they would be inserted.
pub record MutationStored (r : PersistenceRecord) (db : TradeTables) : Type 0 where
  pub found : find (is_mutation r.mutation_id) db.mutations ≡ some (mutation_row r)
  pub checked_row : mutation_checks (mutation_row r) ≡ true

pub record EventStored (r : PersistenceRecord) (db : TradeTables) : Type 0 where
  pub found : find (is_event r.event_id r.event_signature) db.events ≡ some (event_row r)
  pub checked_row : event_checks (event_row r) ≡ true

pub record ObservationStored (o : Observation) (db : TradeTables) : Type 0 where
  pub found : is_some (find (is_observation (observation_row o)) db.observations) ≡ true
  pub checked_row : observation_checks (observation_row o) ≡ true

-- Every row of evidence that is found stays the row found under its key.
pub record KeepsRows (db db' : TradeTables) : Type 0 where
  pub mutations :
      (id : ℕ) (row : MutationRow)
      → find (is_mutation id) db.mutations ≡ some row
      → find (is_mutation id) db'.mutations ≡ some row
  pub events :
      (id signature : ℕ) (row : EventRow)
      → find (is_event id signature) db.events ≡ some row
      → find (is_event id signature) db'.events ≡ some row
  pub observations :
      (row : ObservationRow)
      → is_some (find (is_observation row) db.observations) ≡ true
      → is_some (find (is_observation row) db'.observations) ≡ true

-- The same, and nothing but evidence changes.
pub record KeepsEvidence (db db' : TradeTables) : Type 0 where
  pub rows : KeepsRows db db'
  pub checkpoints : db'.checkpoints ≡ db.checkpoints
  pub generations : db'.generations ≡ db.generations

pub KeepsRows-same :
    (db db' : TradeTables)
    → db'.mutations ≡ db.mutations
    → db'.events ≡ db.events
    → db'.observations ≡ db.observations
    → KeepsRows db db'
KeepsRows-same db db' h k l = record {
  mutations = λ id row found. rw h found;
  events = λ id signature row found. rw k found;
  observations = λ row found. rw l found;
}

pub KeepsRows-trans : {a b c : TradeTables} → KeepsRows a b → KeepsRows b c → KeepsRows a c
KeepsRows-trans k l = record {
  mutations = λ id row h. l.mutations id row (k.mutations id row h);
  events = λ id signature row h. l.events id signature row (k.events id signature row h);
  observations = λ row h. l.observations row (k.observations row h);
}

pub KeepsEvidence-refl : (db : TradeTables) → KeepsEvidence db db
KeepsEvidence-refl db = record {
  rows = KeepsRows-same db db refl refl refl;
  checkpoints = refl;
  generations = refl;
}

pub KeepsEvidence-trans :
    {a b c : TradeTables} → KeepsEvidence a b → KeepsEvidence b c → KeepsEvidence a c
KeepsEvidence-trans k l = record {
  rows = KeepsRows-trans k.rows l.rows;
  checkpoints = l.checkpoints ∙ k.checkpoints;
  generations = l.generations ∙ k.generations;
}

and_also-true :
    (b : Bool) (next : PersistResult Bool)
    → and_also b next ≡ ok true
    → (b ≡ true) × (next ≡ ok true)
and_also-true true next h = (refl, h)
and_also-true false next h = absurd (true_ne_false (sym (ok-injective h)))

bounded_blob-ok :
    (maximum : ℕ) (bytes out : List ℕ) → bounded_blob maximum bytes ≡ ok out → bytes ≡ out
bounded_blob-ok maximum bytes out h =
    let (_, _, e) = and_then-ok (require (between 1 maximum (length bytes)) storage) h in
    ok-injective e

-- The stored row matches only if it is the row of the record.
pub mutation_matches-row :
    (r : PersistenceRecord) (db : TradeTables)
    → mutation_matches r db ≡ ok true
    → find (is_mutation r.mutation_id) db.mutations ≡ some (mutation_row r)
unfolding mutation_matches
mutation_matches-row r db h =
    let (row, reads, h1) =
      and_then-ok (ok_or (find (is_mutation r.mutation_id) db.mutations) storage) h in
    let found = ok_or-ok (find (is_mutation r.mutation_id) db.mutations) storage reads in
    let (_, keyed) = find-Contains (is_mutation r.mutation_id) db.mutations row found in
    let (trade, h2) = and_also-true (row.trade_id == r.trade_id) _ h1 in
    let (contract, reads3, h3) = and_then-ok (bounded_blob 128 row.contract_id) h2 in
    let (parts, h4) =
      and_also-true
        (same_bytes contract r.contract_id
          && row.schema_version == r.schema_version
          && row.event_kind == r.event_kind
          && row.author_pubkey == r.author_pubkey)
        _ h3 in
    let (content, reads5, h5) = and_then-ok (bounded_blob 131072 row.canonical_content) h4 in
    let ids : row.mutation_id ≡ r.mutation_id = ground arith in
    let trades : row.trade_id ≡ r.trade_id = ground arith in
    let contracts : row.contract_id ≡ r.contract_id =
      bounded_blob-ok 128 row.contract_id contract reads3
      ∙ same_bytes_eq contract r.contract_id (ground arith) in
    let versions : row.schema_version ≡ r.schema_version = ground arith in
    let kinds : row.event_kind ≡ r.event_kind = ground arith in
    let authors : row.author_pubkey ≡ r.author_pubkey = ground arith in
    let contents : row.canonical_content ≡ r.canonical_content =
      bounded_blob-ok 131072 row.canonical_content content reads5
      ∙ same_bytes_eq content r.canonical_content (ok-injective h5) in
    found
    ∙ ap some
        (mutation_rows row (mutation_row r) ids trades contracts versions kinds authors contents)
  where
    mutation_rows :
        (a b : MutationRow)
        → a.mutation_id ≡ b.mutation_id
        → a.trade_id ≡ b.trade_id
        → a.contract_id ≡ b.contract_id
        → a.schema_version ≡ b.schema_version
        → a.event_kind ≡ b.event_kind
        → a.author_pubkey ≡ b.author_pubkey
        → a.canonical_content ≡ b.canonical_content
        → a ≡ b
    mutation_rows a b h1 h2 h3 h4 h5 h6 h7 = cc

pub event_matches-row :
    (r : PersistenceRecord) (db : TradeTables)
    → event_matches r db ≡ ok true
    → find (is_event r.event_id r.event_signature) db.events ≡ some (event_row r)
unfolding event_matches
event_matches-row r db h =
    let (row, reads, h1) =
      and_then-ok (ok_or (find (is_event r.event_id r.event_signature) db.events) storage) h in
    let found = ok_or-ok (find (is_event r.event_id r.event_signature) db.events) storage reads in
    let (_, keyed) = find-Contains (is_event r.event_id r.event_signature) db.events row found in
    let (parts, h2) =
      and_also-true
        (row.mutation_id == r.mutation_id
          && row.author_pubkey == r.author_pubkey
          && row.event_kind == r.event_kind
          && row.authored_at_unix_s == r.authored_at_unix_s)
        _ h1 in
    let (json, reads3, h3) = and_then-ok (bounded_blob 524288 row.canonical_event_json) h2 in
    let ids : row.event_id ≡ r.event_id = ground arith in
    let signatures : row.event_signature ≡ r.event_signature = ground arith in
    let mutations : row.mutation_id ≡ r.mutation_id = ground arith in
    let authors : row.author_pubkey ≡ r.author_pubkey = ground arith in
    let kinds : row.event_kind ≡ r.event_kind = ground arith in
    let times : row.authored_at_unix_s ≡ r.authored_at_unix_s = ground arith in
    let jsons : row.canonical_event_json ≡ r.canonical_event_json =
      bounded_blob-ok 524288 row.canonical_event_json json reads3
      ∙ same_bytes_eq json r.canonical_event_json (ok-injective h3) in
    found
    ∙ ap some (event_rows row (event_row r) ids signatures mutations authors kinds times jsons)
  where
    event_rows :
        (a b : EventRow)
        → a.event_id ≡ b.event_id
        → a.event_signature ≡ b.event_signature
        → a.mutation_id ≡ b.mutation_id
        → a.author_pubkey ≡ b.author_pubkey
        → a.event_kind ≡ b.event_kind
        → a.authored_at_unix_s ≡ b.authored_at_unix_s
        → a.canonical_event_json ≡ b.canonical_event_json
        → a ≡ b
    event_rows a b h1 h2 h3 h4 h5 h6 h7 = cc

-- What is behind a number of rows and a comparison that went well.
pub inserted_or_same-ok :
    (matches : PersistResult Bool) (conflict : PersistenceError) (rows : ℕ) (db : TradeTables)
    {fresh : Bool} {db' : TradeTables}
    → inserted_or_same matches conflict (rows, db) ≡ ok (fresh, db')
    → (db' ≡ db)
      × (((rows ≡ 0) × (fresh ≡ false) × (matches ≡ ok true)) ⊎ ((rows ≡ 1) × (fresh ≡ true)))
inserted_or_same-ok matches conflict zero db h =
    let (same, e1, h1) = and_then-ok matches h in
    let (_, e2, h2) = and_then-ok (require same conflict) h1 in
    let passed = require-ok same conflict e2 in
    let (flag, same) = ok-pair h2 in (sym same, inl (refl, sym flag, e1 ∙ ap ok passed))
inserted_or_same-ok matches conflict (suc zero) db h =
    let (flag, same) = ok-pair h in (sym same, inr (refl, sym flag))
inserted_or_same-ok matches conflict (suc (suc n)) db h = absurd (err_ne_ok h)
