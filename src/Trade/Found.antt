-- ===== src/Trade/Found.antt =====
-- Evidence that is stored is found again by the insertions of src/state_trade.rs.
use rhi.Trade.Stored.{EventStored, MutationStored, ObservationStored}
use rhi.Replay.Types.{PersistenceRecord}
use rhi.Trade.Persist.{
  event_matches, insert_event, insert_mutation, insert_observation, mutation_matches, event_row,
  insert_event_row, insert_mutation_row, insert_observation_row, observation_row,
}
use rhi.Base.{
  true, false, inl, inr, ok, refl, Bool, List, ℕ, ◌||◌, between, ◌≡◌, &&-left, leb, length, sym,
  ◌⊎◌, &&-right, max_i64, same_bytes, ==_self, same_bytes_eq, same_bytes_self, [], ◌∷◌, all, any,
  true_ne_false, arith, ◌&&◌, ◌==◌,
}
use rhi.Trade.Types.{
  TradeTables, event_checks, observation_checks, Observation, mutation_checks, contract_ids,
}

or_true : (a b : Bool) → (a || b) ≡ true → (a ≡ true) ⊎ (b ≡ true)
or_true true b h = inl refl
or_true false b h = inr h

-- Every contract's name is within the bound on the column.
named_length :
    (id : List ℕ) (names : List (List ℕ))
    → all (λ name. between 1 128 (length name)) names ≡ true
    → any (same_bytes id) names ≡ true
    → between 1 128 (length id) ≡ true
named_length id [] short h = absurd (true_ne_false (sym h))
named_length id (name ∷ names) short h =
    elim (or_true (same_bytes id name) (any (same_bytes id) names) h) [
      | inl same ↦
          rw (same_bytes_eq id name same) (
            &&-left (between 1 128 (length name)) (all (λ n. between 1 128 (length n)) names) short)
      | inr later ↦
          named_length id names
            (&&-right (between 1 128 (length name)) (all (λ n. between 1 128 (length n)) names)
              short)
            later
    ]

checks_contract : (a b c d : Bool) → (a && b && c && d) ≡ true → a ≡ true
checks_contract a b c d h = ground arith

stored_mutation_matches :
    (r : PersistenceRecord) (db : TradeTables)
    → MutationStored r db
    → mutation_matches r db ≡ ok true
unfolding mutation_matches mutation_checks
stored_mutation_matches r db s =
    let fits = s.checked_row in
    let contract = named_length r.contract_id contract_ids refl (
      checks_contract (any (same_bytes r.contract_id) contract_ids) (r.schema_version == 1)
        (between 3470 3474 r.event_kind) (between 1 131072 (length r.canonical_content)) fits) in
    let content : between 1 131072 (length r.canonical_content) ≡ true = ground arith in
    rw
      (
        s.found,
        ==_self r.trade_id,
        contract,
        same_bytes_self r.contract_id,
        ==_self r.schema_version,
        ==_self r.event_kind,
        ==_self r.author_pubkey,
        content,
        same_bytes_self r.canonical_content,
      )
      refl

stored_event_matches :
    (r : PersistenceRecord) (db : TradeTables) → EventStored r db → event_matches r db ≡ ok true
unfolding event_matches event_checks
stored_event_matches r db s =
    let fits = s.checked_row in
    let json : between 1 524288 (length r.canonical_event_json) ≡ true = ground arith in
    rw
      (
        s.found,
        ==_self r.mutation_id,
        ==_self r.author_pubkey,
        ==_self r.event_kind,
        ==_self r.authored_at_unix_s,
        json,
        same_bytes_self r.canonical_event_json,
      )
      refl

pub insert_mutation-stored :
    (r : PersistenceRecord) (db : TradeTables)
    → MutationStored r db
    → insert_mutation r db ≡ ok (false, db)
unfolding insert_mutation insert_mutation_row
insert_mutation-stored r db s = rw (s.checked_row, s.found, stored_mutation_matches r db s) refl

event_time :
    (r : PersistenceRecord)
    → event_checks (event_row r) ≡ true
    → leb r.authored_at_unix_s max_i64 ≡ true
unfolding event_checks
event_time r fits = ground arith

pub insert_event-stored :
    (r : PersistenceRecord) (db : TradeTables)
    → EventStored r db
    → insert_event r db ≡ ok (false, db)
unfolding insert_event insert_event_row
insert_event-stored r db s =
    let in_range : leb r.authored_at_unix_s max_i64 ≡ true = event_time r s.checked_row in
    rw (in_range, s.checked_row, s.found, stored_event_matches r db s) refl

observed_time :
    (o : Observation)
    → observation_checks (observation_row o) ≡ true
    → leb o.observed_at max_i64 ≡ true
unfolding observation_checks
observed_time o fits = ground arith

pub insert_observation-stored :
    (o : Observation) (db : TradeTables)
    → ObservationStored o db
    → insert_observation o db ≡ ok (false, db)
unfolding insert_observation insert_observation_row
insert_observation-stored o db s =
    let in_range : leb o.observed_at max_i64 ≡ true = observed_time o s.checked_row in
    rw (in_range, s.checked_row, s.found) refl
