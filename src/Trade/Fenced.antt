-- ===== src/Trade/Fenced.antt =====
-- `write_checkpoint` of src/source_ingest.rs leaves the cursor it is given, and moves no other back.
use rhi.Attempt.Identity.{source_selector}
use rhi.Trade.Written.{
  one_written-ok, insert_checkpoint_row-ok, as_i64-ok, at_scope-keys, updated-ScopesDistinct,
  row_scope, old_scope, inserted-ScopesDistinct,
}
use rhi.Replay.Types.{Cursor}
use rhi.Trade.Checkpoints.{
  write_checkpoint, checkpoint_statement, update_checkpoints, as_i64, at_revision, at_scope,
  next_checkpoint,
}
use rhi.Trade.Cursors.{
  CheckpointsAdvance, ScopesDistinct, row_cursor, update-CheckpointsAdvance, CursorNotBefore-refl,
}
use rhi.Trade.Types.{CheckpointRow, TradeTables, Checkpoint, checkpoint_checks}
use rhi.Base.{
  ok, some, none, true, refl, ◌∷◌, List, ◌≡◌, ℕ, Option, and_then-ok, count, find, update_where,
  count-Contains, &&-left, sym, subst, ◌==◌, ◌∙◌, find-changed, Bool, if◌then◌else◌,
}

-- The tables but for the checkpoints.
pub record SameElsewhere (db db' : TradeTables) : Type 0 where
  pub mutations : db'.mutations ≡ db.mutations
  pub events : db'.events ≡ db.events
  pub observations : db'.observations ≡ db.observations
  pub generations : db'.generations ≡ db.generations

pub record Wrote (s : List ℕ) (p t : ℕ) (next : Cursor) (db db' : TradeTables) : Type 0 where
  pub advance : CheckpointsAdvance db db'
  pub distinct : ScopesDistinct db'
  pub elsewhere : SameElsewhere db db'
  pub row : CheckpointRow
  pub found : find (at_scope s p t) db'.checkpoints ≡ some row
  pub cursor : row_cursor row ≡ next

with_checkpoints-SameElsewhere :
    (db : TradeTables) (rows : List CheckpointRow)
    → SameElsewhere db (record db { checkpoints = rows })
with_checkpoints-SameElsewhere db rows = record {
  mutations = refl;
  events = refl;
  observations = refl;
  generations = refl;
}

inserted-Wrote :
    (r : CheckpointRow) (db : TradeTables)
    → ScopesDistinct db
    → row_scope r r ≡ true
    → checkpoint_checks r ≡ true
    → find (row_scope r) db.checkpoints ≡ none
    → Wrote r.source_id r.evidence_policy_sha256 r.trade_id
        (row_cursor r)
        db
        (record db { checkpoints = r ∷ db.checkpoints })
unfolding CheckpointsAdvance
inserted-Wrote r db distinct itself fits free = record {
  advance = λ s p t row found.
      (row, old_scope r db s p t row free found, CursorNotBefore-refl (row_cursor row));
  distinct = inserted-ScopesDistinct r db distinct itself fits free;
  elsewhere = with_checkpoints-SameElsewhere db (r ∷ db.checkpoints);
  row = r;
  found = rw itself refl;
  cursor = refl;
}

-- The row of a scope that an update at a revision changes.
updated-found :
    (s : List ℕ) (p t revision c e at : ℕ) (db : TradeTables)
    → ScopesDistinct db
    → count (at_revision s p t revision) db.checkpoints ≡ 1
    → (x : CheckpointRow) × (find
          (at_scope s p t)
          (update_where (at_revision s p t revision) (next_checkpoint c e at) db.checkpoints)
        ≡ some (next_checkpoint c e at x))
updated-found s p t revision c e at db distinct one =
    let q = at_revision s p t revision in
    let (x, old, hit) = count-Contains q db.checkpoints 0 one in
    let scope : at_scope s p t x ≡ true = &&-left (at_scope s p t x) (x.revision == revision) hit in
    let (k1, k2, k3) = at_scope-keys s p t x scope in
    let found : find (at_scope s p t) db.checkpoints ≡ some x =
      subst (λ z. find (at_scope z p t) db.checkpoints ≡ some x) k1
        (subst (λ z. find (at_scope x.source_id z t) db.checkpoints ≡ some x) k2
          (subst
            (λ z. find (at_scope x.source_id x.evidence_policy_sha256 z) db.checkpoints ≡ some x) k3
            (distinct.once x old))) in
    let after =
      find-changed (at_scope s p t) q (next_checkpoint c e at) (λ z. refl) db.checkpoints x found in
    (
      x,
      subst
          (λ (b : Bool).
            find (at_scope s p t) (update_where q (next_checkpoint c e at) db.checkpoints)
            ≡ some (if b then next_checkpoint c e at x else x))
          hit after,
    )

updated-Wrote :
    (s : List ℕ) (p t revision : ℕ) (next : Cursor) (at n : ℕ) (db db1 : TradeTables)
    → ScopesDistinct db
    → update_checkpoints
        (at_revision s p t revision)
        (next_checkpoint next.created_at_unix_seconds next.event_id at)
        db
      ≡ ok (n, db1)
    → n ≡ 1
    → Wrote s p t next db db1
updated-Wrote s p t revision next at n db db1 distinct h one =
    let q = at_revision s p t revision in
    let f = next_checkpoint next.created_at_unix_seconds next.event_id at in
    let (advance, number, allowed, same) =
      update-CheckpointsAdvance q next.created_at_unix_seconds next.event_id at db n h in
    let (x, found) =
      updated-found s p t revision next.created_at_unix_seconds next.event_id at db distinct
        (sym number ∙ one) in
    record {
      advance = advance;
      distinct = subst ScopesDistinct (sym same) (
          updated-ScopesDistinct q next.created_at_unix_seconds next.event_id at db distinct
            allowed);
      elsewhere =
          subst (SameElsewhere db) (sym same)
            (with_checkpoints-SameElsewhere db (update_where q f db.checkpoints));
      row = f x;
      found = subst (λ d. find (at_scope s p t) d.checkpoints ≡ some (f x)) (sym same) found;
      cursor = refl;
    }

-- Where rows of a scope are one, a write that goes well leaves the new cursor in its scope, moves no
-- checkpoint back and changes no other table.
pub write_checkpoint-Wrote :
    (s : List ℕ) (p t : ℕ) (current : Option Checkpoint) (next : Cursor) (at : ℕ) (db : TradeTables)
    {db' : TradeTables}
    → ScopesDistinct db
    → write_checkpoint s p t current next at db ≡ ok db'
    → Wrote s p t next db db'
unfolding write_checkpoint checkpoint_statement
write_checkpoint-Wrote s p t none next at db {db'} distinct h =
    let (c, e1, h1) = and_then-ok (as_i64 next.created_at_unix_seconds) h in
    let (a, e2, h2) = and_then-ok (as_i64 at) h1 in
    let ((n, db1), e3, h3) =
      and_then-ok (checkpoint_statement s p t none c next.event_id a db) h2 in
    let (_, same) = one_written-ok n db1 h3 in
    let (itself, fits, free, after) = insert_checkpoint_row-ok _ db n e3 in
    let r : CheckpointRow = record {
      source_id = s;
      selector_id = source_selector;
      evidence_policy_sha256 = p;
      trade_id = t;
      cursor_created_at_unix_s = c;
      cursor_event_id = next.event_id;
      revision = 1;
      completed_at_unix_s = a;
    } in
    subst (λ d. Wrote s p t next db d) (after ∙ same)
      (subst
        (λ z.
          Wrote s p t (record { created_at_unix_seconds = z; event_id = next.event_id }) db
            (record db { checkpoints = r ∷ db.checkpoints }))
        (sym (as_i64-ok next.created_at_unix_seconds e1))
        (inserted-Wrote r db distinct itself fits free))
write_checkpoint-Wrote s p t (some current) next at db {db'} distinct h =
    let (c, e1, h1) = and_then-ok (as_i64 next.created_at_unix_seconds) h in
    let (a, e2, h2) = and_then-ok (as_i64 at) h1 in
    let ((n, db1), e3, h3) =
      and_then-ok (checkpoint_statement s p t (some current) c next.event_id a db) h2 in
    let (revision, e4, h4) = and_then-ok (as_i64 current.revision) e3 in
    let (one, same) = one_written-ok n db1 h3 in
    let created = as_i64-ok next.created_at_unix_seconds e1 in
    subst (λ d. Wrote s p t next db d) same
      (updated-Wrote s p t revision next a n db db1 distinct
        (subst
          (λ z.
            update_checkpoints (at_revision s p t revision) (next_checkpoint z next.event_id a) db
            ≡ ok (n, db1))
          (sym created) h4)
        one)
