-- ===== src/Commit/Stored.antt =====
-- The facts that src/reconciliation_commit.rs persists, and the steps between the checks and the parts.
use rhi.Trade.Ingest.{checkpoint_cursor}
use rhi.Trade.Generations.{advance_dirty_generation-Advanced}
use rhi.Trade.Checkpoints.{advance_dirty_generation, read_checkpoint}
use rhi.Trade.Persist.{persist}
use rhi.Trade.Settled.{TradeValid, Forward, Forward-refl, generation_step}
use rhi.Trade.Stored.{KeepsRows, KeepsEvidence, KeepsEvidence-refl, KeepsEvidence-trans}
use rhi.Trade.Again.{EvidenceStored, EvidenceStored-KeepsRows, persist-ok}
use rhi.Commit.Operation.{
  advance_if_new, persist_facts, persist_parts, read_checkpoints, fact_observation, last_finished,
  same_cursor,
}
use rhi.Commit.Types.{storage, generation_conflict, map_persistence_error, map_source_error}
use rhi.Trade.Types.{TradeTables, Checkpoint, DirtyState}
use rhi.Replay.Types.{CommitParts, CommitFact}
use rhi.Base.{
  ok, some, [], ◌∷◌, true, false, suc, List, ℕ, All, Bool, Option, ◌≡◌, length, ap, ok-injective,
  subst, sym, and_then-ok, map_err, ok_or, map_err-ok, require, ◌∙◌, ok-pair,
}

abbrev pub FactStored : List ℕ → ℕ → TradeTables → CommitFact → Type 0
FactStored source_id policy db fact =
    EvidenceStored fact.persisted (fact_observation source_id policy fact) db

abbrev pub PartStored : ℕ → TradeTables → CommitParts → Type 0
PartStored policy db part = All (FactStored part.source_id policy db) part.facts

facts_later :
    (s : List ℕ) (p : ℕ) (db db' : TradeTables)
    → KeepsRows db db'
    → (facts : List CommitFact) → All (FactStored s p db) facts
    → All (FactStored s p db') facts
facts_later s p db db' kept [] all = tt
facts_later s p db db' kept (fact ∷ facts) (here, later) = (
  EvidenceStored-KeepsRows fact.persisted (fact_observation s p fact) kept here,
  facts_later s p db db' kept facts later,
)

pub parts_later :
    (p : ℕ) (db db' : TradeTables)
    → KeepsRows db db'
    → (parts : List CommitParts) → All (PartStored p db) parts
    → All (PartStored p db') parts
parts_later p db db' kept [] all = tt
parts_later p db db' kept (part ∷ parts) (here, later) = (
  facts_later part.source_id p db db' kept part.facts here,
  parts_later p db db' kept parts later,
)

persist_facts-ok :
    (s : List ℕ) (p : ℕ) (facts : List CommitFact) (fresh fresh' : Bool) (db db' : TradeTables)
    → persist_facts s p facts fresh db ≡ ok (fresh', db')
    → KeepsEvidence db db' × All (FactStored s p db') facts
unfolding persist_facts
persist_facts-ok s p [] fresh fresh' db db' h =
    (subst (KeepsEvidence db) (ok-pair h).1 (KeepsEvidence-refl db), tt)
persist_facts-ok s p (fact ∷ facts) fresh fresh' db db' h =
    let step = persist fact.persisted (fact_observation s p fact) db in
    let ((out, db1), e1, h1) = and_then-ok (map_err map_persistence_error step) h in
    let (stored, kept) =
      persist-ok fact.persisted (fact_observation s p fact) db out
        (map_err-ok map_persistence_error step e1) in
    let (kept', all) = persist_facts-ok s p facts _ fresh' db1 db' h1 in
    (
      KeepsEvidence-trans kept kept',
      (EvidenceStored-KeepsRows fact.persisted (fact_observation s p fact) kept'.rows stored, all),
    )

pub persist_parts-ok :
    (p : ℕ) (parts : List CommitParts) (fresh fresh' : Bool) (db db' : TradeTables)
    → persist_parts p parts fresh db ≡ ok (fresh', db')
    → KeepsEvidence db db' × All (PartStored p db') parts
unfolding persist_parts
persist_parts-ok p [] fresh fresh' db db' h =
    (subst (KeepsEvidence db) (ok-pair h).1 (KeepsEvidence-refl db), tt)
persist_parts-ok p (part ∷ parts) fresh fresh' db db' h =
    let ((fresh1, db1), e1, h1) =
      and_then-ok (persist_facts part.source_id p part.facts fresh db) h in
    let (kept, here) = persist_facts-ok part.source_id p part.facts fresh fresh1 db db1 e1 in
    let (kept', all) = persist_parts-ok p parts fresh1 fresh' db1 db' h1 in
    (
      KeepsEvidence-trans kept kept',
      (facts_later part.source_id p db1 db' kept'.rows part.facts here, all),
    )

pub advance_if_new-ok :
    (fresh : Bool) (t p : ℕ) (parts : List CommitParts) (dirty : DirtyState) (db db' : TradeTables)
    → TradeValid db
    → advance_if_new fresh t p parts dirty db ≡ ok db'
    → Forward db db' × TradeValid db'
unfolding advance_if_new
advance_if_new-ok false t p parts dirty db db' v h =
    let same = ok-injective h in
    (subst (Forward db) same (Forward-refl db), subst TradeValid same v)
advance_if_new-ok true t p parts dirty db db' v h =
    let (at, e1, h1) = and_then-ok (ok_or (last_finished parts) storage) h in
    let step = advance_dirty_generation t p at (some dirty) db in
    let ((g, db1), e2, h2) = and_then-ok (map_err map_source_error step) h1 in
    let (_, a) =
      advance_dirty_generation-Advanced t p at g (some dirty) db v.trades
        (map_err-ok map_source_error step e2) in
    let (forward, valid) = generation_step t g db db1 a v in
    let same = ok-injective h2 in (subst (Forward db) same forward, subst TradeValid same valid)

pub read_checkpoints-length :
    (p : ℕ) (parts : List CommitParts) (db : TradeTables) (checkpoints : List (Option Checkpoint))
    → read_checkpoints p parts db ≡ ok checkpoints
    → length checkpoints ≡ length parts
unfolding read_checkpoints
read_checkpoints-length p [] db checkpoints h = ap length (sym (ok-injective h))
read_checkpoints-length p (part ∷ parts) db checkpoints h =
    let (checkpoint, e1, h1) =
      and_then-ok (map_err map_source_error (read_checkpoint part.source_id p part.trade_id db))
        h in
    let (_, e2, h2) =
      and_then-ok
        (require (same_cursor (checkpoint_cursor checkpoint) part.prior_cursor) generation_conflict)
        h1 in
    let (rest, e3, h3) = and_then-ok (read_checkpoints p parts db) h2 in
    ap length (sym (ok-injective h3)) ∙ ap suc (read_checkpoints-length p parts db rest e3)
