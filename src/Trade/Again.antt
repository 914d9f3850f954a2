-- ===== src/Trade/Again.antt =====
-- `persist` of src/state_trade.rs, repeated: evidence that is stored is found again as it is.
use rhi.Trade.Found.{insert_mutation-stored, insert_event-stored, insert_observation-stored}
use rhi.Trade.Kept.{insert_mutation-ok, insert_event-ok, insert_observation-ok}
use rhi.Trade.Stored.{
  KeepsEvidence, EventStored, KeepsEvidence-refl, KeepsEvidence-trans, MutationStored,
  ObservationStored, KeepsRows,
}
use rhi.Replay.Types.{PersistenceRecord}
use rhi.Trade.Persist.{
  insert_event, insert_mutation, insert_observation, persist, event_row, mutation_row,
  observation_row,
}
use rhi.Base.{false, ok, refl, ◌≡◌, and_then-ok, sym, ◌∙◌, subst, ok-pair}
use rhi.Trade.Types.{TradeTables, PersistenceOutcome, Observation}
use mathlib.Core.Option.{some-injective}

-- A record and its observation are stored.
pub record EvidenceStored (r : PersistenceRecord) (o : Observation) (db : TradeTables)
    : Type 0 where
  pub mutation : MutationStored r db
  pub event : EventStored r db
  pub observation : ObservationStored o db

pub EvidenceStored-KeepsRows :
    (r : PersistenceRecord) (o : Observation) {db db' : TradeTables}
    → KeepsRows db db'
    → EvidenceStored r o db
    → EvidenceStored r o db'
EvidenceStored-KeepsRows r o kept s = record {
  mutation = record {
    found = kept.mutations r.mutation_id (mutation_row r) s.mutation.found;
    checked_row = s.mutation.checked_row;
  };
  event = record {
    found = kept.events r.event_id r.event_signature (event_row r) s.event.found;
    checked_row = s.event.checked_row;
  };
  observation = record {
    found = kept.observations (observation_row o) s.observation.found;
    checked_row = s.observation.checked_row;
  };
}

abbrev pub nothing_new : PersistenceOutcome
nothing_new = record {
  mutation_inserted = false;
  signed_event_inserted = false;
  observation_inserted = false;
}

pub persist-stored :
    (r : PersistenceRecord) (o : Observation) (db : TradeTables)
    → EvidenceStored r o db
    → persist r o db ≡ ok (nothing_new, db)
unfolding persist
persist-stored r o db s =
    rw
      (
        insert_mutation-stored r db s.mutation,
        insert_event-stored r db s.event,
        insert_observation-stored o db s.observation,
      )
      refl

pub persist-ok :
    (r : PersistenceRecord) (o : Observation) (db : TradeTables) (out : PersistenceOutcome)
    {db' : TradeTables}
    → persist r o db ≡ ok (out, db')
    → EvidenceStored r o db' × KeepsEvidence db db'
unfolding persist
persist-ok r o db out {db'} h =
    let ((m, db1), h1, r1) = and_then-ok (insert_mutation r db) h in
    let ((e, db2), h2, r2) = and_then-ok (insert_event r db1) r1 in
    let ((w, db3), h3, r3) = and_then-ok (insert_observation o db2) r2 in
    let (_, same) = ok-pair r3 in
    let (s1, k1) = insert_mutation-ok r db m h1 in
    let (s2, k2) = insert_event-ok r db1 e h2 in
    let (s3, k3) = insert_observation-ok o db2 w h3 in
    let k23 = KeepsEvidence-trans k2 k3 in
    subst (λ d. EvidenceStored r o d × KeepsEvidence db d) same
      (
        record {
          mutation = record {
            found = k23.rows.mutations r.mutation_id (mutation_row r) s1.found;
            checked_row = s1.checked_row;
          };
          event = record {
            found = k3.rows.events r.event_id r.event_signature (event_row r) s2.found;
            checked_row = s2.checked_row;
          };
          observation = s3;
        },
        KeepsEvidence-trans k1 k23,
      )

-- Any number of records persisted one after the other.
pub data Persisting : TradeTables → TradeTables → Type 0 where
  done : {db : TradeTables} → Persisting db db
  then_persist :
      {db db1 db2 : TradeTables} (r : PersistenceRecord) (o : Observation)
      (out : PersistenceOutcome)
      → persist r o db ≡ ok (out, db1)
      → Persisting db1 db2
      → Persisting db db2

pub Persisting-KeepsEvidence : {db db' : TradeTables} → Persisting db db' → KeepsEvidence db db'
Persisting-KeepsEvidence {db} done = KeepsEvidence-refl db
Persisting-KeepsEvidence {db} (then_persist r o out e rest) =
    KeepsEvidence-trans (persist-ok r o db out e).1 (Persisting-KeepsEvidence rest)

-- Once `persist` has stored a record and its observation, then after any number of further records
-- persisted, the same call inserts nothing and changes nothing.
pub persist-again :
    (r : PersistenceRecord) (o : Observation) (out : PersistenceOutcome) (db : TradeTables)
    {db1 db2 : TradeTables}
    → persist r o db ≡ ok (out, db1)
    → Persisting db1 db2
    → persist r o db2 ≡ ok (nothing_new, db2)
persist-again r o out db {db1} {db2} e later =
    persist-stored r o db2 (
      EvidenceStored-KeepsRows r o (Persisting-KeepsEvidence later).rows
        (persist-ok r o db out e).0)

-- Two records that are both persisted, with any number of others between them, have the same
-- mutation row if they have one mutation id, and the same event row if they have one event id and
-- signature.
pub persist-agree :
    (a b : PersistenceRecord) (o p : Observation) (out out' : PersistenceOutcome) (db : TradeTables)
    {db1 db2 db3 : TradeTables}
    → persist a o db ≡ ok (out, db1)
    → Persisting db1 db2
    → persist b p db2 ≡ ok (out', db3)
    → (a.mutation_id ≡ b.mutation_id → mutation_row a ≡ mutation_row b)
      × (a.event_id ≡ b.event_id
          → a.event_signature ≡ b.event_signature
          → event_row a ≡ event_row b)
persist-agree a b o p out out' db {db1} {db2} {db3} e later f =
    let first_stored =
      EvidenceStored-KeepsRows a o (Persisting-KeepsEvidence later).rows
        (persist-ok a o db out e).0 in
    let (second_stored, kept) = persist-ok b p db2 out' f in
    let still = EvidenceStored-KeepsRows a o kept.rows first_stored in
    (
      λ same.
          some-injective (mutation_row a) (mutation_row b)
            (sym still.mutation.found ∙ rw same second_stored.mutation.found),
      λ same signed.
          some-injective (event_row a) (event_row b)
            (sym still.event.found ∙ rw (same, signed) second_stored.event.found),
    )
