-- ===== src/Trade/Settled.antt =====
-- `commit_source_result` of src/source_ingest.rs: what a commit that goes well leaves in the tables.
use rhi.Trade.Persist.{persist}
use rhi.Trade.Again.{EvidenceStored-KeepsRows, EvidenceStored, persist-ok}
use rhi.Trade.Fenced.{Wrote}
use rhi.Replay.Types.{Cursor, PersistenceRecord}
use rhi.Trade.Trades.{
  Advanced, GenerationsDistinct, GenerationsAdvance, GenerationsAdvance-same,
  GenerationsAdvance-trans, GenerationsDistinct-same,
}
use rhi.Replay.Finish.{AdmittedEvent, from_admitted}
use rhi.Trade.Stored.{
  KeepsEvidence, KeepsRows, KeepsRows-same, KeepsRows-trans, KeepsEvidence-refl,
  KeepsEvidence-trans,
}
use rhi.Trade.Cursors.{
  ScopesDistinct, CheckpointsAdvance, CheckpointsAdvance-refl, CheckpointsAdvance-trans,
}
use rhi.Trade.Ingest.{persist_admitted, Inserted, observation_of, as_u32}
use rhi.Trade.Types.{TradeTables, storage, persistence}
use rhi.Base.{
  ok, some, [], ◌∷◌, refl, List, ℕ, ◌≡◌, subst, All, Contains, and_then-ok, ok_or, map_err, ◌+◌,
  bit, map_err-ok, ok_or-ok, ok-pair,
}

-- An admitted event that is stored, with its observation.
pub record AdmittedStored (source_id : List ℕ) (policy : ℕ) (db : TradeTables)
    (event : AdmittedEvent) : Type 0 where
  pub persisted : PersistenceRecord
  pub made : from_admitted event ≡ some persisted
  pub stored : EvidenceStored persisted (observation_of source_id policy event) db

pub AllStored-KeepsRows :
    (s : List ℕ) (p : ℕ) (db db' : TradeTables)
    → KeepsRows db db'
    → (events : List AdmittedEvent) → All (AdmittedStored s p db) events
    → All (AdmittedStored s p db') events
AllStored-KeepsRows s p db db' kept [] all = tt
AllStored-KeepsRows s p db db' kept (event ∷ events) (here, later) = (
  record {
    persisted = here.persisted;
    made = here.made;
    stored = EvidenceStored-KeepsRows here.persisted (observation_of s p event) kept here.stored;
  },
  AllStored-KeepsRows s p db db' kept events later,
)

pub persist_admitted-ok :
    (s : List ℕ) (p : ℕ) (events : List AdmittedEvent) (before after : Inserted)
    (db db' : TradeTables)
    → persist_admitted s p events before db ≡ ok (after, db')
    → KeepsEvidence db db' × All (AdmittedStored s p db') events
unfolding persist_admitted
persist_admitted-ok s p [] before after db db' h =
    (subst (λ d. KeepsEvidence db d) (ok-pair h).1 (KeepsEvidence-refl db), tt)
persist_admitted-ok s p (event ∷ events) before after db db' h =
    let (r, e1, h1) = and_then-ok (ok_or (from_admitted event) storage) h in
    let ((out, db1), e2, h2) =
      and_then-ok (map_err persistence (persist r (observation_of s p event) db)) h1 in
    let (m, e3, h3) = and_then-ok (as_u32 (before.mutations + bit out.mutation_inserted)) h2 in
    let (e, e4, h4) =
      and_then-ok (as_u32 (before.signed_events + bit out.signed_event_inserted)) h3 in
    let (w, e5, h5) =
      and_then-ok (as_u32 (before.observations + bit out.observation_inserted)) h4 in
    let persisted = map_err-ok persistence (persist r (observation_of s p event) db) e2 in
    let (stored, kept) = persist-ok r (observation_of s p event) db out persisted in
    let (kept', all) =
      persist_admitted-ok s p events (record { mutations = m; signed_events = e; observations = w })
        after db1 db' h5 in
    (
      KeepsEvidence-trans kept kept',
      (
        record {
          persisted = r;
          made = ok_or-ok (from_admitted event) storage e1;
          stored = EvidenceStored-KeepsRows r (observation_of s p event) kept'.rows stored;
        },
        all,
      ),
    )

-- Well-formed: one checkpoint in each scope, one dirty generation of each trade.
pub record TradeValid (db : TradeTables) : Type 0 where
  pub scopes : ScopesDistinct db
  pub trades : GenerationsDistinct db

-- What one part of a commit leaves.
pub record Forward (db db' : TradeTables) : Type 0 where
  pub rows : KeepsRows db db'
  pub checkpoints : CheckpointsAdvance db db'
  pub generations : GenerationsAdvance db db'

pub Forward-trans : (a b c : TradeTables) → Forward a b → Forward b c → Forward a c
Forward-trans a b c k l = record {
  rows = KeepsRows-trans k.rows l.rows;
  checkpoints = CheckpointsAdvance-trans a b c k.checkpoints l.checkpoints;
  generations = GenerationsAdvance-trans a b c k.generations l.generations;
}

pub Forward-refl : (db : TradeTables) → Forward db db
Forward-refl db = record {
  rows = KeepsRows-same db db refl refl refl;
  checkpoints = CheckpointsAdvance-refl db db refl;
  generations = GenerationsAdvance-same db db refl;
}

pub ScopesDistinct-same :
    (db db' : TradeTables)
    → db'.checkpoints ≡ db.checkpoints
    → ScopesDistinct db
    → ScopesDistinct db'
ScopesDistinct-same db db' same distinct = record {
  once = λ row here. rw same (distinct.once row (subst (λ rows. Contains rows row) same here));
  fits = λ row here. distinct.fits row (subst (λ rows. Contains rows row) same here);
}

pub evidence_step :
    (db db' : TradeTables) → KeepsEvidence db db' → TradeValid db → Forward db db' × TradeValid db'
evidence_step db db' k v = (
  record {
    rows = k.rows;
    checkpoints = CheckpointsAdvance-refl db db' k.checkpoints;
    generations = GenerationsAdvance-same db db' k.generations;
  },
  record {
    scopes = ScopesDistinct-same db db' k.checkpoints v.scopes;
    trades = GenerationsDistinct-same db db' k.generations v.trades;
  },
)

pub generation_step :
    (t g : ℕ) (db db' : TradeTables)
    → Advanced t g db db'
    → TradeValid db
    → Forward db db' × TradeValid db'
generation_step t g db db' a v =
    let (rows, same) = a.elsewhere in
    (
      record {
        rows =
            subst (λ d. KeepsRows db d) same
              (KeepsRows-same db (record db { generations = rows }) refl refl refl);
        checkpoints =
            subst (λ d. CheckpointsAdvance db d) same
              (CheckpointsAdvance-refl db (record db { generations = rows }) refl);
        generations = a.advance;
      },
      record {
        scopes =
            subst ScopesDistinct same
              (ScopesDistinct-same db (record db { generations = rows }) refl v.scopes);
        trades = a.distinct;
      },
    )

pub checkpoint_step :
    (s : List ℕ) (p t : ℕ) (next : Cursor) (db db' : TradeTables)
    → Wrote s p t next db db'
    → TradeValid db
    → Forward db db' × TradeValid db'
checkpoint_step s p t next db db' w v = (
  record {
    rows = KeepsRows-same db db' w.elsewhere.mutations w.elsewhere.events w.elsewhere.observations;
    checkpoints = w.advance;
    generations = GenerationsAdvance-same db db' w.elsewhere.generations;
  },
  record {
    scopes = w.distinct;
    trades = GenerationsDistinct-same db db' w.elsewhere.generations v.trades;
  },
)
