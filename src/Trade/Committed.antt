-- ===== src/Trade/Committed.antt =====
-- `commit_source_result` of src/source_ingest.rs as a whole.
use rhi.Trade.Grown.{Grew, persist_admitted-Grew}
use rhi.Trade.Fenced.{SameElsewhere}
use rhi.Trade.Outcome.{
  OnlyGenerations, CheckpointSettled, GenerationSettled, SourceCommitted, AtGeneration,
  settle_generation-ok, settle_checkpoint-ok,
}
use rhi.Replay.Types.{Cursor}
use rhi.Trade.Stored.{KeepsRows-trans}
use rhi.Trade.Settled.{
  TradeValid, persist_admitted-ok, evidence_step, Forward-trans, AllStored-KeepsRows,
}
use rhi.Trade.Ingest.{
  settle_generation, InitialState, FetchedSource, Inserted, IngestOutcome, same_checkpoint,
  commit_source_result, settle_checkpoint, same_dirty, as_u32, persist_admitted,
}
use rhi.Trade.Types.{TradeTables, DirtyState, Checkpoint, generation_conflict}
use rhi.Trade.Checkpoints.{read_checkpoint, read_dirty}
use rhi.Base.{
  ok, inl, inr, List, ℕ, Option, ◌≡◌, Bool, and_then-ok, subst, require, length, require-ok,
  ok-pair, ◌∙◌,
}

GenerationSettled-same :
    (t : ℕ) (dirty : Option DirtyState) (inserted : Inserted) (g : Option ℕ) (advanced : Bool)
    (a b c d : TradeTables)
    → b.generations ≡ a.generations
    → d.generations ≡ c.generations
    → GenerationSettled t dirty inserted g advanced b c
    → GenerationSettled t dirty inserted g advanced a d
unfolding GenerationSettled AtGeneration
GenerationSettled-same t dirty inserted g advanced a b c d before after (inl (m, e, h, k, still)) =
    inl (m, e, h, k, after ∙ still ∙ before)
GenerationSettled-same t dirty inserted g advanced a b c d before after
      (inr (some_new, k, l, (row, found, at))) =
    inr (some_new, k, l, (row, rw after found, at))

CheckpointSettled-same :
    (s : List ℕ) (p t : ℕ) (current : Option Checkpoint) (fetched : FetchedSource)
    (c : Option Cursor) (advanced : Bool) (db db1 db2 : TradeTables)
    → db1.checkpoints ≡ db.checkpoints
    → CheckpointSettled s p t current fetched c advanced db1 db2
    → CheckpointSettled s p t current fetched c advanced db db2
unfolding CheckpointSettled
CheckpointSettled-same s p t current fetched c advanced db db1 db2 before
      (inl (not_ahead, h, k, still)) =
    inl (not_ahead, h, k, still ∙ before)
CheckpointSettled-same s p t current fetched c advanced db db1 db2 before (inr written) =
    inr written

Grew-same :
    (m e o : ℕ) (a b c d : TradeTables)
    → OnlyGenerations b c
    → SameElsewhere c d
    → Grew m e o a b
    → Grew m e o a d
Grew-same m e o a b c d first second grew = record {
  more_mutations = rw (second.mutations, first.mutations) grew.more_mutations;
  more_events = rw (second.events, first.events) grew.more_events;
  more_observations = rw (second.observations, first.observations) grew.more_observations;
}

-- On well-formed tables, a `commit_source_result` that goes well found the checkpoint and the
-- dirty generation as they were read before the fetch. Every admitted event is stored with its
-- observation, no row of evidence is changed, and the outcome's counts are the numbers of rows by
-- which the tables of evidence have grown. If they have grown by no mutation and no signed event,
-- the table of generations is as before, with the generation that was read; else the trade has the
-- next one. If the source is complete and its candidate is after the checkpoint that was read, if
-- any, the scope has the candidate as its cursor; else the table of checkpoints is as before. The
-- outcome reports what is then in force and whether it moved. No checkpoint and no generation goes
-- back, and the tables stay well formed.
pub commit_source_result-SourceCommitted :
    (s : List ℕ) (p t at : ℕ) (initial : InitialState) (fetched : FetchedSource)
    (out : IngestOutcome) (db db' : TradeTables)
    → TradeValid db
    → commit_source_result s p t at initial fetched db ≡ ok (out, db')
    → SourceCommitted s p t initial fetched out db db'
unfolding commit_source_result
commit_source_result-SourceCommitted s p t at initial fetched out db db' v h =
    let (checkpoint, e1, h1) = and_then-ok (read_checkpoint s p t db) h in
    let (_, e2, h2) =
      and_then-ok (require (same_checkpoint checkpoint initial.checkpoint) generation_conflict)
        h1 in
    let (dirty, e3, h3) = and_then-ok (read_dirty t db) h2 in
    let (_, e4, h4) =
      and_then-ok (require (same_dirty dirty initial.dirty) generation_conflict) h3 in
    let (admitted, e5, h5) = and_then-ok (as_u32 (length fetched.admitted)) h4 in
    let ((inserted, db1), e6, h6) =
      and_then-ok
        (persist_admitted s p fetched.admitted
          (record { mutations = 0; signed_events = 0; observations = 0 }) db)
        h5 in
    let (((g, moved), db2), e7, h7) =
      and_then-ok (settle_generation t p at initial.dirty inserted db1) h6 in
    let (((c, advanced), db3), e8, h8) =
      and_then-ok (settle_checkpoint s p t at initial.checkpoint fetched db2) h7 in
    let (received, e9, h9) = and_then-ok (as_u32 fetched.received_events) h8 in
    let (rejected, e10, h10) = and_then-ok (as_u32 fetched.rejected_events) h9 in
    let (duplicates, e11, h11) = and_then-ok (as_u32 fetched.duplicate_events) h10 in
    let (outcome, last) = ok-pair h11 in
    let (kept, all) = persist_admitted-ok s p fetched.admitted _ inserted db db1 e6 in
    let (f1, v1) = evidence_step db db1 kept v in
    let (f2, v2, only, settled) =
      settle_generation-ok t p at initial.dirty inserted g moved db1 db2 v1 e7 in
    let (f3, v3, elsewhere, written) =
      settle_checkpoint-ok s p t at initial.checkpoint fetched c advanced db2 db3 v2 e8 in
    subst (SourceCommitted s p t initial fetched out db) last (
      subst (λ o. SourceCommitted s p t initial fetched o db db3) outcome
        (record {
          checkpoint_read = checkpoint;
          reads_checkpoint = e1;
          same_read =
              require-ok (same_checkpoint checkpoint initial.checkpoint) generation_conflict e2;
          dirty_read = dirty;
          reads_dirty = e3;
          same_generation = require-ok (same_dirty dirty initial.dirty) generation_conflict e4;
          forward = Forward-trans db db2 db3 (Forward-trans db db1 db2 f1 f2) f3;
          valid = v3;
          stored =
              AllStored-KeepsRows s p db1 db3 (KeepsRows-trans f2.rows f3.rows) fetched.admitted
                all;
          grew =
              Grew-same inserted.mutations inserted.signed_events inserted.observations db db1 db2
                db3 only elsewhere (persist_admitted-Grew s p fetched.admitted inserted db db1 e6);
          generation =
              GenerationSettled-same t initial.dirty inserted g moved db db1 db2 db3
                kept.generations elsewhere.generations settled;
          checkpoint =
              CheckpointSettled-same s p t initial.checkpoint fetched c advanced db db2 db3
                (only.checkpoints ∙ kept.checkpoints) written;
        }))
