-- ===== src/Trade/Persist.antt =====
-- `persist` of src/state_trade.rs: an admitted event and its observation into the tables of evidence,
-- statement by statement. A row that is there already is not written again.
use rhi.Base.{
  ℕ, zero, suc, Bool, true, false, ◌&&◌, List, ◌∷◌, Result, ok, err, ◌>>=◌, ◌>>◌, require, ok_or,
  ◌==◌, leb, between, is_some, find, length, same_bytes, max_i64,
}
use rhi.Attempt.Identity.{source_selector}
use rhi.Replay.Types.{PersistenceRecord}
use rhi.Trade.Types.{
  MutationRow, EventRow, ObservationRow, TradeTables, Observation, PersistenceOutcome,
  PersistenceError, mutation_conflict, signed_event_conflict, storage, mutation_checks,
  event_checks, observation_checks,
}

abbrev pub PersistResult : Type 0 → Type 0
PersistResult A = Result PersistenceError A

-- The values bound to the three INSERT statements.
abbrev pub mutation_row : PersistenceRecord → MutationRow
mutation_row r = record {
  mutation_id = r.mutation_id;
  trade_id = r.trade_id;
  contract_id = r.contract_id;
  schema_version = r.schema_version;
  event_kind = r.event_kind;
  author_pubkey = r.author_pubkey;
  canonical_content = r.canonical_content;
}

abbrev pub event_row : PersistenceRecord → EventRow
event_row r = record {
  event_id = r.event_id;
  event_signature = r.event_signature;
  mutation_id = r.mutation_id;
  author_pubkey = r.author_pubkey;
  event_kind = r.event_kind;
  authored_at_unix_s = r.authored_at_unix_s;
  canonical_event_json = r.canonical_event_json;
}

abbrev pub observation_row : Observation → ObservationRow
observation_row o = record {
  source_id = o.source_id;
  selector_id = source_selector;
  evidence_policy_sha256 = o.policy;
  event_id = o.event_id;
  event_signature = o.event_signature;
  observed_at_unix_s = o.observed_at;
}

-- The primary keys.
abbrev pub is_mutation : ℕ → MutationRow → Bool
is_mutation id s = s.mutation_id == id

abbrev pub is_event : ℕ → ℕ → EventRow → Bool
is_event id signature s = s.event_id == id && s.event_signature == signature

abbrev pub is_observation : ObservationRow → ObservationRow → Bool
is_observation r s =
    same_bytes s.source_id r.source_id
    && same_bytes s.selector_id r.selector_id
    && s.evidence_policy_sha256 == r.evidence_policy_sha256
    && s.event_id == r.event_id
    && s.event_signature == r.event_signature
    && s.observed_at_unix_s == r.observed_at_unix_s

-- The end of an INSERT … ON CONFLICT DO NOTHING: whether the primary key is taken, and whether the
-- foreign key, if any, refers to a row.
abbrev pub insert_unless : Bool → Bool → TradeTables → TradeTables → PersistResult (ℕ × TradeTables)
insert_unless true refers db after = ok (0, db)
insert_unless false true db after = ok (1, after)
insert_unless false false db after = err storage

-- INSERT_MUTATION_SQL, INSERT_EVENT_SQL and INSERT_OBSERVATION_SQL, with the number of rows affected:
-- a check or a foreign key that fails is an error, a primary key that is taken is no row.
unfoldable pub insert_mutation_row : MutationRow → TradeTables → PersistResult (ℕ × TradeTables)
insert_mutation_row r db = do
  require (mutation_checks r) storage
  insert_unless (is_some (find (is_mutation r.mutation_id) db.mutations)) true db
      (record db { mutations = r ∷ db.mutations })

unfoldable pub insert_event_row : EventRow → TradeTables → PersistResult (ℕ × TradeTables)
insert_event_row r db = do
  require (event_checks r) storage
  insert_unless (is_some (find (is_event r.event_id r.event_signature) db.events))
      (is_some (find (is_mutation r.mutation_id) db.mutations)) db
      (record db { events = r ∷ db.events })

unfoldable pub insert_observation_row :
    ObservationRow → TradeTables → PersistResult (ℕ × TradeTables)
insert_observation_row r db = do
  require (observation_checks r) storage
  insert_unless (is_some (find (is_observation r) db.observations))
      (is_some (find (is_event r.event_id r.event_signature) db.events)) db
      (record db { observations = r ∷ db.observations })

-- `bounded_text` and `bounded_blob`.
abbrev pub bounded_blob : ℕ → List ℕ → PersistResult (List ℕ)
bounded_blob maximum bytes = do require (between 1 maximum (length bytes)) storage; ok bytes

-- `a && b` where `b` may fail.
abbrev pub and_also : Bool → PersistResult Bool → PersistResult Bool
and_also false next = ok false
and_also true next = next

unfoldable pub mutation_matches : PersistenceRecord → TradeTables → PersistResult Bool
mutation_matches expected db = do
  row ← ok_or (find (is_mutation expected.mutation_id) db.mutations) storage
  and_also (row.trade_id == expected.trade_id) (do
    contract ← bounded_blob 128 row.contract_id
    and_also
        (same_bytes contract expected.contract_id
          && row.schema_version == expected.schema_version
          && row.event_kind == expected.event_kind
          && row.author_pubkey == expected.author_pubkey)
        (do
          content ← bounded_blob 131072 row.canonical_content
          ok (same_bytes content expected.canonical_content)))

unfoldable pub event_matches : PersistenceRecord → TradeTables → PersistResult Bool
event_matches expected db = do
  row ← ok_or (find (is_event expected.event_id expected.event_signature) db.events) storage
  and_also
      (row.mutation_id == expected.mutation_id
        && row.author_pubkey == expected.author_pubkey
        && row.event_kind == expected.event_kind
        && row.authored_at_unix_s == expected.authored_at_unix_s)
      (do
        json ← bounded_blob 524288 row.canonical_event_json
        ok (same_bytes json expected.canonical_event_json))

-- The `match` on the number of rows, where no row is an error unless the stored row matches.
abbrev pub inserted_or_same :
    PersistResult Bool → PersistenceError → ℕ × TradeTables → PersistResult (Bool × TradeTables)
inserted_or_same matches conflict (zero, db) = do
  same ← matches
  require same conflict
  ok (false, db)
inserted_or_same matches conflict (suc zero, db) = ok (true, db)
inserted_or_same matches conflict (suc (suc n), db) = err storage

unfoldable pub insert_mutation :
    PersistenceRecord → TradeTables → PersistResult (Bool × TradeTables)
insert_mutation r db = do
  rows ← insert_mutation_row (mutation_row r) db
  inserted_or_same (mutation_matches r rows.1) mutation_conflict rows

unfoldable pub insert_event : PersistenceRecord → TradeTables → PersistResult (Bool × TradeTables)
insert_event r db = do
  require (leb r.authored_at_unix_s max_i64) storage
  rows ← insert_event_row (event_row r) db
  inserted_or_same (event_matches r rows.1) signed_event_conflict rows

unfoldable pub insert_observation : Observation → TradeTables → PersistResult (Bool × TradeTables)
insert_observation o db = do
  require (leb o.observed_at max_i64) storage
  rows ← insert_observation_row (observation_row o) db
  inserted_or_same (ok true) storage rows

unfoldable pub persist :
    PersistenceRecord → Observation → TradeTables → PersistResult (PersistenceOutcome × TradeTables)
persist r o db = do
  (mutation, db1) ← insert_mutation r db
  (event, db2) ← insert_event r db1
  (observation, db3) ← insert_observation o db2
  ok (
    record {
      mutation_inserted = mutation;
      signed_event_inserted = event;
      observation_inserted = observation;
    },
    db3,
  )
