-- ===== src/Trade/Outcome.antt =====
-- What `commit_source_result` of src/source_ingest.rs says of the generation and the checkpoint.
use rhi.Replay.Canonical.{is_lt, compare_cursor}
use rhi.Trade.Grown.{Grew}
use rhi.Attempt.Types.{complete}
use mathlib.Core.Option.{some-injective}
use rhi.Replay.Advance.{is_complete_eq}
use rhi.Trade.Fenced.{SameElsewhere, Wrote, write_checkpoint-Wrote}
use rhi.Replay.Commit.{is_complete}
use rhi.Trade.Generations.{next_after, advance_dirty_generation-Advanced}
use rhi.Trade.Settled.{
  TradeValid, Forward, AdmittedStored, generation_step, Forward-refl, checkpoint_step,
}
use rhi.Trade.Cursors.{row_cursor}
use rhi.Replay.Types.{Cursor}
use rhi.Trade.Ingest.{
  settle_generation, InitialState, checkpoint_cursor, FetchedSource, Inserted, IngestOutcome,
  generation_of, same_checkpoint, settle_checkpoint, write_candidate, same_dirty,
}
use rhi.Trade.Types.{TradeTables, Checkpoint, DirtyState, CheckpointRow, GenerationRow}
use rhi.Trade.Checkpoints.{
  of_trade, at_scope, read_checkpoint, advance_dirty_generation, SourceOperation, read_dirty,
  write_checkpoint,
}
use rhi.Base.{
  ok, some, true, false, inl, inr, List, ℕ, Option, find, ◌≡◌, Bool, ◌⊎◌, All, Bool-cases, not,
  ◌==◌, ◌||◌, and_then, and_then-ok, ap, subst, sym, ◌∙◌, arith, none, refl, is_some_and, err_ne_ok,
  is_none_or, ◌&&◌, &&-left, &&-right, ◌↔◌, some_ne_none, true_ne_false, ◌≤◌, ◌+◌, ok-triple,
}

-- The dirty generation that a trade has in the tables.
unfoldable pub AtGeneration : ℕ → ℕ → TradeTables → Type 0
AtGeneration t g db =
    (row : GenerationRow) × (find (of_trade t) db.generations ≡ some row) × (row.generation ≡ g)

-- The cursor that a scope has in the tables.
unfoldable pub AtCursor : List ℕ → ℕ → ℕ → Cursor → TradeTables → Type 0
AtCursor s p t c db =
    (row : CheckpointRow) × (find (at_scope s p t) db.checkpoints ≡ some row) × (row_cursor row ≡ c)

-- A cursor is after that of the checkpoint, if there is one.
unfoldable pub Ahead : Option Checkpoint → Cursor → Type 0
Ahead current candidate =
    (k : Checkpoint) → current ≡ some k → is_lt (compare_cursor k.cursor candidate) ≡ true

Ahead-iff :
    (current : Option Checkpoint) (candidate : Cursor)
    → (is_none_or (λ (prior : Checkpoint). is_lt (compare_cursor prior.cursor candidate)) current
        ≡ true)
      ↔ Ahead current candidate
unfolding Ahead
Ahead-iff none candidate = (λ e k h. absurd (some_ne_none (sym h)), λ ahead. refl)
Ahead-iff (some c) candidate = (
  λ e k h.
      subst (λ (z : Checkpoint). is_lt (compare_cursor z.cursor candidate) ≡ true)
        (some-injective _ _ h) e,
  λ ahead. ahead c refl,
)

-- What became of the dirty generation, and of the checkpoint: the rows of a table, unless they are
-- written, are those from before.
unfoldable pub GenerationSettled :
    ℕ → Option DirtyState → Inserted → Option ℕ → Bool → TradeTables → TradeTables → Type 0
GenerationSettled t dirty inserted g advanced db db' =
    ((inserted.mutations ≡ 0)
      × (inserted.signed_events ≡ 0)
      × (g ≡ generation_of dirty)
      × (advanced ≡ false)
      × (db'.generations ≡ db.generations))
    ⊎ ((1 ≤ inserted.mutations + inserted.signed_events)
        × (g ≡ some (next_after dirty))
        × (advanced ≡ true)
        × AtGeneration t (next_after dirty) db')

unfoldable pub CheckpointSettled :
    List ℕ
    → ℕ
    → ℕ
    → Option Checkpoint
    → FetchedSource
    → Option Cursor
    → Bool
    → TradeTables
    → TradeTables
    → Type 0
CheckpointSettled s p t current fetched c advanced db db' =
    (((candidate : Cursor)
        → fetched.completion ≡ complete
        → fetched.cursor_candidate ≡ some candidate
        → ¬ Ahead current candidate)
      × (c ≡ checkpoint_cursor current)
      × (advanced ≡ false)
      × (db'.checkpoints ≡ db.checkpoints))
    ⊎ ((candidate : Cursor) × (fetched.completion ≡ complete)
        × (fetched.cursor_candidate ≡ some candidate)
        × Ahead current candidate
        × (c ≡ some candidate)
        × (advanced ≡ true)
        × AtCursor s p t candidate db')

-- Nothing but the dirty generations changes.
pub record OnlyGenerations (db db' : TradeTables) : Type 0 where
  pub mutations : db'.mutations ≡ db.mutations
  pub events : db'.events ≡ db.events
  pub observations : db'.observations ≡ db.observations
  pub checkpoints : db'.checkpoints ≡ db.checkpoints

OnlyGenerations-rows :
    (db db' : TradeTables) (rows : List GenerationRow)
    → record db { generations = rows } ≡ db'
    → OnlyGenerations db db'
OnlyGenerations-rows db db' rows same =
    subst (OnlyGenerations db) same
      (record { mutations = refl; events = refl; observations = refl; checkpoints = refl })

abbrev pub inserted_of : IngestOutcome → Inserted
inserted_of out = record {
  mutations = out.inserted_mutations;
  signed_events = out.inserted_signed_events;
  observations = out.inserted_observations;
}

pub record SourceCommitted (s : List ℕ) (p t : ℕ) (initial : InitialState) (fetched : FetchedSource)
    (out : IngestOutcome) (db db' : TradeTables) : Type 0 where
  pub checkpoint_read : Option Checkpoint
  pub reads_checkpoint : read_checkpoint s p t db ≡ ok checkpoint_read
  pub same_read : same_checkpoint checkpoint_read initial.checkpoint ≡ true
  pub dirty_read : Option DirtyState
  pub reads_dirty : read_dirty t db ≡ ok dirty_read
  pub same_generation : same_dirty dirty_read initial.dirty ≡ true
  pub forward : Forward db db'
  pub valid : TradeValid db'
  pub grew : Grew out.inserted_mutations out.inserted_signed_events out.inserted_observations db db'
  pub stored : All (AdmittedStored s p db') fetched.admitted
  pub generation :
      GenerationSettled t initial.dirty
        (inserted_of out)
        out.dirty_generation
        out.dirty_generation_advanced
        db
        db'
  pub checkpoint :
      CheckpointSettled s p t initial.checkpoint fetched out.checkpoint out.checkpoint_advanced db
        db'

pub settle_generation-ok :
    (t p at : ℕ) (dirty : Option DirtyState) (inserted : Inserted) (g : Option ℕ) (advanced : Bool)
    (db db' : TradeTables)
    → TradeValid db
    → settle_generation t p at dirty inserted db ≡ ok ((g, advanced), db')
    → Forward db db'
      × TradeValid db'
      × OnlyGenerations db db'
      × GenerationSettled t dirty inserted g advanced db db'
unfolding settle_generation GenerationSettled AtGeneration
settle_generation-ok t p at dirty inserted g advanced db db' v h =
    elim (Bool-cases (not (inserted.mutations == 0) || not (inserted.signed_events == 0))) [
      | inl fresh ↦
          let h0 : and_then (λ (out : ℕ × TradeTables). ok ((some out.0, true), out.1))
                (advance_dirty_generation t p at dirty db)
              ≡ ok ((g, advanced), db') =
            rw fresh at h in
          let ((n, db1), e1, h1) = and_then-ok (advance_dirty_generation t p at dirty db) h0 in
          let (number, a) = advance_dirty_generation-Advanced t p at n dirty db v.trades e1 in
          let (first, flag, last) = ok-triple h1 in
          let (forward, valid) = generation_step t n db db1 a v in
          subst (Settled dirty inserted db g advanced) last (
            forward,
            valid,
            OnlyGenerations-rows db db1 a.elsewhere.0 a.elsewhere.1,
            inr (
              ground arith,
              sym first ∙ ap some number,
              sym flag,
              (a.row, a.found, a.generation ∙ number),
            ),
          )
      | inr stale ↦
          let h0 : ◌≡◌ {A = SourceOperation ((Option ℕ × Bool) × TradeTables)}
              (ok ((generation_of dirty, false), db)) (ok ((g, advanced), db')) =
            rw stale at h in
          let (first, flag, last) = ok-triple h0 in
          subst (Settled dirty inserted db g advanced) last (
            Forward-refl db,
            v,
            OnlyGenerations-rows db db db.generations refl,
            inl (ground arith, ground arith, sym first, sym flag, refl),
          )
    ]
  where
    Settled : Option DirtyState → Inserted → TradeTables → Option ℕ → Bool → TradeTables → Type 0
    Settled k n a h b d =
        Forward a d × TradeValid d × OnlyGenerations a d × GenerationSettled t k n h b a d

write_candidate-ok :
    (s : List ℕ) (p t at : ℕ) (current : Option Checkpoint) (candidate : Option Cursor)
    (c : Option Cursor) (advanced : Bool) (db db' : TradeTables)
    → TradeValid db
    → write_candidate s p t at current candidate db ≡ ok ((c, advanced), db')
    → Forward db db'
      × TradeValid db'
      × ((next : Cursor) × (candidate ≡ some next)
          × (c ≡ some next)
          × (advanced ≡ true)
          × Wrote s p t next db db')
write_candidate-ok s p t at current none c advanced db db' v h = absurd (err_ne_ok h)
write_candidate-ok s p t at current (some next) c advanced db db' v h =
    let (db1, e1, h1) = and_then-ok (write_checkpoint s p t current next at db) h in
    let w = write_checkpoint-Wrote s p t current next at db v.scopes e1 in
    let (first, flag, last) = ok-triple h1 in
    let w' = subst (Wrote s p t next db) last w in
    let (forward, valid) = checkpoint_step s p t next db db' w' v in
    (forward, valid, (next, refl, sym first, sym flag, w'))

abbrev later : Option Checkpoint → FetchedSource → Bool
later current fetched =
    is_some_and
      (λ candidate. is_none_or (λ prior. is_lt (compare_cursor prior.cursor candidate)) current)
      fetched.cursor_candidate

pub settle_checkpoint-ok :
    (s : List ℕ) (p t at : ℕ) (current : Option Checkpoint) (fetched : FetchedSource)
    (c : Option Cursor) (advanced : Bool) (db db' : TradeTables)
    → TradeValid db
    → settle_checkpoint s p t at current fetched db ≡ ok ((c, advanced), db')
    → Forward db db'
      × TradeValid db'
      × SameElsewhere db db'
      × CheckpointSettled s p t current fetched c advanced db db'
unfolding settle_checkpoint CheckpointSettled AtCursor
settle_checkpoint-ok s p t at current fetched c advanced db db' v h =
    elim (Bool-cases (is_complete fetched.completion && later current fetched)) [
      | inl goes_on ↦
          let h0 : write_candidate s p t at current fetched.cursor_candidate db
              ≡ ok ((c, advanced), db') =
            rw goes_on at h in
          let (forward, valid, (next, is_candidate, first, flag, w)) =
            write_candidate-ok s p t at current fetched.cursor_candidate c advanced db db' v h0 in
          (
            forward,
            valid,
            w.elsewhere,
            inr (
              next,
              is_complete_eq fetched.completion
                  (&&-left (is_complete fetched.completion) (later current fetched) goes_on),
              is_candidate,
              (Ahead-iff current next).0 (
                  rw is_candidate at
                    (&&-right (is_complete fetched.completion) (later current fetched) goes_on)),
              first,
              flag,
              (w.row, w.found, w.cursor),
            ),
          )
      | inr stays ↦
          let h0 : ◌≡◌ {A = SourceOperation ((Option Cursor × Bool) × TradeTables)}
              (ok ((checkpoint_cursor current, false), db)) (ok ((c, advanced), db')) =
            rw stays at h in
          let (first, flag, last) = ok-triple h0 in
          (
            subst (Forward db) last (Forward-refl db),
            subst TradeValid last v,
            subst (SameElsewhere db) last (record {
              mutations = refl;
              events = refl;
              observations = refl;
              generations = refl;
            }),
            inl (
              λ candidate whole is_candidate ahead. true_ne_false (
                  sym (rw (whole, is_candidate, (Ahead-iff current candidate).1 ahead) refl)
                  ∙ stays),
              sym first,
              sym flag,
              ap (λ (d : TradeTables). d.checkpoints) (sym last),
            ),
          )
    ]
