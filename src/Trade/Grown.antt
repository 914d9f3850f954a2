-- ===== src/Trade/Grown.antt =====
-- The counts of `persist` of src/state_trade.rs and of the loop over the admitted events of
-- src/source_ingest.rs, against the rows of the tables.
use rhi.Trade.Kept.{insert_unless-ok, zero_ne_one}
use rhi.Trade.Stored.{inserted_or_same-ok}
use rhi.Trade.Persist.{
  PersistResult, insert_event, insert_event_row, insert_mutation, insert_mutation_row,
  insert_observation, insert_observation_row, insert_unless, inserted_or_same, event_matches,
  event_row, is_event, is_mutation, is_observation, mutation_matches, mutation_row, observation_row,
  persist,
}
use rhi.Trade.Ingest.{Inserted, as_u32, observation_of, persist_admitted}
use rhi.Trade.Types.{
  Observation, PersistenceError, PersistenceOutcome, SourceError, TradeTables, event_checks,
  mutation_checks, mutation_conflict, observation_checks, persistence, signed_event_conflict,
  storage,
}
use rhi.Replay.Types.{PersistenceRecord}
use rhi.Replay.Finish.{AdmittedEvent, from_admitted}
use rhi.Base.{
  Bool, List, [], ◌∷◌, ℕ, ◌+◌, ◌≡◌, ◌⊎◌, and_then-ok, arith, bit, false, find, guarded-ok, inl, inr,
  is_some, leb, length, map_err, map_err-ok, max_i64, ok, ok-pair, ok_or, refl, require, subst, sym,
  true, ◌∙◌,
}

-- The tables of evidence have so many rows more.
pub record Grew (mutations events observations : ℕ) (db db' : TradeTables) : Type 0 where
  pub more_mutations : length db'.mutations ≡ length db.mutations + mutations
  pub more_events : length db'.events ≡ length db.events + events
  pub more_observations : length db'.observations ≡ length db.observations + observations

Grew-none : (db : TradeTables) → Grew 0 0 0 db db
Grew-none db = record {
  more_mutations = omega arith;
  more_events = omega arith;
  more_observations = omega arith;
}

-- A row is new exactly if its statement wrote it.
written_or_same :
    (taken allowed : Bool) (db after : TradeTables) (rows : ℕ) (matches : PersistResult Bool)
    (conflict : PersistenceError) (fresh : Bool) {db1 db' : TradeTables}
    → insert_unless taken allowed db after ≡ ok (rows, db1)
    → inserted_or_same matches conflict (rows, db1) ≡ ok (fresh, db')
    → ((fresh ≡ false) × (db' ≡ db)) ⊎ ((fresh ≡ true) × (db' ≡ after))
written_or_same taken allowed db after rows matches conflict fresh {db1} h k =
    let (same, how) = inserted_or_same-ok matches conflict rows db1 k in
    elim (insert_unless-ok taken allowed db after rows h) [
      | inl (zero_rows, _, kept) ↦ elim how [
        | inl (_, stale, _) ↦ inl (stale, same ∙ kept)
        | inr (one_row, _) ↦ absurd (zero_ne_one zero_rows one_row)
      ]
      | inr (one_row, _, _, written) ↦ elim how [
        | inl (zero_rows, _, _) ↦ absurd (zero_ne_one zero_rows one_row)
        | inr (_, new) ↦ inr (new, same ∙ written)
      ]
    ]

insert_mutation-Grew :
    (r : PersistenceRecord) (db : TradeTables) (fresh : Bool) {db' : TradeTables}
    → insert_mutation r db ≡ ok (fresh, db')
    → Grew (bit fresh) 0 0 db db'
unfolding insert_mutation insert_mutation_row
insert_mutation-Grew r db fresh h =
    let ((rows, db1), h1, h2) = and_then-ok (insert_mutation_row (mutation_row r) db) h in
    let (_, _, h3) = and_then-ok (require (mutation_checks (mutation_row r)) storage) h1 in
    elim (written_or_same (is_some (find (is_mutation r.mutation_id) db.mutations)) true db
      (record db { mutations = mutation_row r ∷ db.mutations }) rows (mutation_matches r db1)
      mutation_conflict fresh h3 h2) [
        | inl (stale, same) ↦ rw (stale, same) (Grew-none db)
        | inr (new, same) ↦
            rw (new, same)
              (record {
                more_mutations = omega arith;
                more_events = omega arith;
                more_observations = omega arith;
              })
      ]

insert_event-Grew :
    (r : PersistenceRecord) (db : TradeTables) (fresh : Bool) {db' : TradeTables}
    → insert_event r db ≡ ok (fresh, db')
    → Grew 0 (bit fresh) 0 db db'
unfolding insert_event insert_event_row
insert_event-Grew r db fresh h0 =
    let (_, _, h) = and_then-ok (require (leb r.authored_at_unix_s max_i64) storage) h0 in
    let ((rows, db1), h1, h2) = and_then-ok (insert_event_row (event_row r) db) h in
    let (_, _, h3) = and_then-ok (require (event_checks (event_row r)) storage) h1 in
    elim (written_or_same (is_some (find (is_event r.event_id r.event_signature) db.events))
      (is_some (find (is_mutation r.mutation_id) db.mutations)) db
      (record db { events = event_row r ∷ db.events }) rows (event_matches r db1)
      signed_event_conflict fresh h3 h2) [
        | inl (stale, same) ↦ rw (stale, same) (Grew-none db)
        | inr (new, same) ↦
            rw (new, same)
              (record {
                more_mutations = omega arith;
                more_events = omega arith;
                more_observations = omega arith;
              })
      ]

insert_observation-Grew :
    (o : Observation) (db : TradeTables) (fresh : Bool) {db' : TradeTables}
    → insert_observation o db ≡ ok (fresh, db')
    → Grew 0 0 (bit fresh) db db'
unfolding insert_observation insert_observation_row
insert_observation-Grew o db fresh h0 =
    let row = observation_row o in
    let (_, _, h) = and_then-ok (require (leb o.observed_at max_i64) storage) h0 in
    let ((rows, db1), h1, h2) = and_then-ok (insert_observation_row row db) h in
    let (_, _, h3) = and_then-ok (require (observation_checks row) storage) h1 in
    elim (written_or_same (is_some (find (is_observation row) db.observations))
      (is_some (find (is_event row.event_id row.event_signature) db.events)) db
      (record db { observations = row ∷ db.observations }) rows (ok true) storage fresh h3 h2) [
        | inl (stale, same) ↦ rw (stale, same) (Grew-none db)
        | inr (new, same) ↦
            rw (new, same)
              (record {
                more_mutations = omega arith;
                more_events = omega arith;
                more_observations = omega arith;
              })
      ]

persist-Grew :
    (r : PersistenceRecord) (o : Observation) (db : TradeTables) (out : PersistenceOutcome)
    {db' : TradeTables}
    → persist r o db ≡ ok (out, db')
    → Grew
        (bit out.mutation_inserted)
        (bit out.signed_event_inserted)
        (bit out.observation_inserted)
        db
        db'
unfolding persist
persist-Grew r o db out {db'} h =
    let ((m, db1), h1, r1) = and_then-ok (insert_mutation r db) h in
    let ((e, db2), h2, r2) = and_then-ok (insert_event r db1) r1 in
    let ((w, db3), h3, r3) = and_then-ok (insert_observation o db2) r2 in
    let (outcome, same) = ok-pair r3 in
    let a = insert_mutation-Grew r db m h1 in
    let b = insert_event-Grew r db1 e h2 in
    let c = insert_observation-Grew o db2 w h3 in
    subst
      (λ (x : PersistenceOutcome).
        Grew (bit x.mutation_inserted) (bit x.signed_event_inserted) (bit x.observation_inserted) db
          db')
      outcome
      (subst (Grew (bit m) (bit e) (bit w) db) same (record {
        more_mutations = omega (arith, a.more_mutations, b.more_mutations, c.more_mutations);
        more_events = omega (arith, a.more_events, b.more_events, c.more_events);
        more_observations =
            omega (arith, a.more_observations, b.more_observations, c.more_observations);
      }))

-- The counters move with the tables.
record Counted (before after : Inserted) (db db' : TradeTables) : Type 0 where
  mutations : length db'.mutations + before.mutations ≡ length db.mutations + after.mutations
  events : length db'.events + before.signed_events ≡ length db.events + after.signed_events
  observations :
      length db'.observations + before.observations ≡ length db.observations + after.observations

as_u32-ok : (n : ℕ) {out : ℕ} → as_u32 n ≡ ok out → n ≡ out
as_u32-ok n h = (guarded-ok (leb n 4294967295) n SourceError.storage h).1

persist_admitted-Counted :
    (s : List ℕ) (p : ℕ) (events : List AdmittedEvent) (before after : Inserted)
    (db db' : TradeTables)
    → persist_admitted s p events before db ≡ ok (after, db')
    → Counted before after db db'
unfolding persist_admitted
persist_admitted-Counted s p [] before after db db' h =
    let (counters, same) = ok-pair h in
    rw (sym counters, sym same) (record { mutations = refl; events = refl; observations = refl })
persist_admitted-Counted s p (event ∷ events) before after db db' h =
    let (r, e1, h1) = and_then-ok (ok_or (from_admitted event) SourceError.storage) h in
    let ((out, db1), e2, h2) =
      and_then-ok (map_err persistence (persist r (observation_of s p event) db)) h1 in
    let (m, e3, h3) = and_then-ok (as_u32 (before.mutations + bit out.mutation_inserted)) h2 in
    let (e, e4, h4) =
      and_then-ok (as_u32 (before.signed_events + bit out.signed_event_inserted)) h3 in
    let (w, e5, h5) =
      and_then-ok (as_u32 (before.observations + bit out.observation_inserted)) h4 in
    let grew =
      persist-Grew r (observation_of s p event) db out
        (map_err-ok persistence (persist r (observation_of s p event) db) e2) in
    let rest =
      persist_admitted-Counted s p events
        (record { mutations = m; signed_events = e; observations = w }) after db1 db' h5 in
    let m' = as_u32-ok (before.mutations + bit out.mutation_inserted) e3 in
    let e' = as_u32-ok (before.signed_events + bit out.signed_event_inserted) e4 in
    let w' = as_u32-ok (before.observations + bit out.observation_inserted) e5 in
    record {
      mutations = omega (arith, grew.more_mutations, rest.mutations, m');
      events = omega (arith, grew.more_events, rest.events, e');
      observations = omega (arith, grew.more_observations, rest.observations, w');
    }

-- From counters at 0, the loop counts the rows that it adds.
pub persist_admitted-Grew :
    (s : List ℕ) (p : ℕ) (events : List AdmittedEvent) (after : Inserted) (db db' : TradeTables)
    → persist_admitted s p events (record { mutations = 0; signed_events = 0; observations = 0 }) db
      ≡ ok (after, db')
    → Grew after.mutations after.signed_events after.observations db db'
persist_admitted-Grew s p events after db db' h =
    let counted = persist_admitted-Counted s p events _ after db db' h in
    record {
      more_mutations = omega (arith, counted.mutations);
      more_events = omega (arith, counted.events);
      more_observations = omega (arith, counted.observations);
    }
