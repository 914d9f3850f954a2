-- ===== src/Trade/Cursors.antt =====
-- The writes of src/source_ingest.rs to `relay_checkpoints` move no checkpoint back.
use rhi.Trade.Checkpoints.{update_checkpoints, checkpoint_fits, at_scope, next_checkpoint}
use rhi.Replay.Canonical.{compare_cursor, is_lt}
use rhi.Replay.Types.{Cursor}
use rhi.Trade.Types.{SourceError, CheckpointRow, TradeTables, guard_checkpoint, checkpoint_checks}
use rhi.Base.{
  ok, some, true, false, inl, inr, refl, Bool, Contains, List, ◌≡◌, arith, find, ℕ, count,
  update_where, changed_where, Bool-cases, all, ap, sym, find-changed, all-Contains, find-Contains,
  guarded-ok,
}

abbrev pub row_cursor : CheckpointRow → Cursor
row_cursor r = record {
  created_at_unix_seconds = r.cursor_created_at_unix_s;
  event_id = r.cursor_event_id;
}

-- The second cursor is not before the first.
unfoldable pub CursorNotBefore : Cursor → Cursor → Type 0
CursorNotBefore a b = is_lt (compare_cursor b a) ≡ false

pub CursorNotBefore-refl : (a : Cursor) → CursorNotBefore a a
unfolding CursorNotBefore compare_cursor
CursorNotBefore-refl a = ground arith

pub CursorNotBefore-trans :
    (a b c : Cursor) → CursorNotBefore a b → CursorNotBefore b c → CursorNotBefore a c
unfolding CursorNotBefore compare_cursor
CursorNotBefore-trans a b c h k = ground arith

-- The rows of a scope are one, every row being the one that is found in its scope; and they meet the
-- checks.
pub record ScopesDistinct (db : TradeTables) : Type 0 where
  pub once :
      (row : CheckpointRow)
      → Contains db.checkpoints row
      → find (at_scope row.source_id row.evidence_policy_sha256 row.trade_id) db.checkpoints
        ≡ some row
  pub fits : (row : CheckpointRow) → Contains db.checkpoints row → checkpoint_checks row ≡ true

-- Every scope that has a checkpoint keeps one, and it is not before the old one.
unfoldable pub CheckpointsAdvance : TradeTables → TradeTables → Type 0
CheckpointsAdvance db db' =
    (source_id : List ℕ) (policy trade_id : ℕ) (row : CheckpointRow)
    → find (at_scope source_id policy trade_id) db.checkpoints ≡ some row
    → (row' : CheckpointRow) × (find (at_scope source_id policy trade_id) db'.checkpoints
        ≡ some row')
      × CursorNotBefore (row_cursor row) (row_cursor row')

pub CheckpointsAdvance-refl :
    (db db' : TradeTables) → db'.checkpoints ≡ db.checkpoints → CheckpointsAdvance db db'
unfolding CheckpointsAdvance
CheckpointsAdvance-refl db db' same source_id policy trade_id row h =
    (row, rw same h, CursorNotBefore-refl (row_cursor row))

pub CheckpointsAdvance-trans :
    (a b c : TradeTables) → CheckpointsAdvance a b → CheckpointsAdvance b c → CheckpointsAdvance a c
unfolding CheckpointsAdvance
CheckpointsAdvance-trans a b c first second source_id policy trade_id row h =
    let (row1, found1, on1) = first source_id policy trade_id row h in
    let (row2, found2, on2) = second source_id policy trade_id row1 found1 in
    (
      row2,
      found2,
      CursorNotBefore-trans (row_cursor row) (row_cursor row1) (row_cursor row2) on1 on2,
    )

-- The trigger lets a cursor go on only.
guard-CursorNotBefore :
    (old new : CheckpointRow)
    → guard_checkpoint old new ≡ true
    → CursorNotBefore (row_cursor old) (row_cursor new)
unfolding guard_checkpoint CursorNotBefore compare_cursor
guard-CursorNotBefore old new h = ground arith

same_scope :
    (s : List ℕ) (p t c e at : ℕ) (x : CheckpointRow)
    → at_scope s p t (next_checkpoint c e at x) ≡ at_scope s p t x
same_scope s p t c e at x = refl

checkpoint_fits-guard :
    (q : CheckpointRow → Bool) (f : CheckpointRow → CheckpointRow) (r : CheckpointRow)
    → q r ≡ true
    → checkpoint_fits q f r ≡ true
    → guard_checkpoint r (f r) ≡ true
checkpoint_fits-guard q f r hit h = ground arith

pub update-CheckpointsAdvance :
    (q : CheckpointRow → Bool) (c e at : ℕ) (db : TradeTables) (n : ℕ) {db' : TradeTables}
    → update_checkpoints q (next_checkpoint c e at) db ≡ ok (n, db')
    → CheckpointsAdvance db db'
      × (n ≡ count q db.checkpoints)
      × (all (checkpoint_fits q (next_checkpoint c e at)) db.checkpoints ≡ true)
      × (db' ≡ record db { checkpoints = update_where q (next_checkpoint c e at) db.checkpoints })
unfolding update_checkpoints CheckpointsAdvance
update-CheckpointsAdvance q c e at db n h =
    let f = next_checkpoint c e at in
    let (fits, pair) =
      guarded-ok (all (checkpoint_fits q f) db.checkpoints)
        (count q db.checkpoints, record db { checkpoints = update_where q f db.checkpoints })
        SourceError.storage h in
    let same = ap (λ (p : ℕ × TradeTables). p.1) pair in
    (
      λ s p t row found. (
        changed_where q f row,
        rw (sym same)
            (find-changed (at_scope s p t) q f (same_scope s p t c e at) db.checkpoints row found),
        changed_CursorNotBefore row
            (all-Contains _ _ row fits (find-Contains (at_scope s p t) db.checkpoints row found).0),
      ),
      sym (ap (λ (p : ℕ × TradeTables). p.0) pair),
      fits,
      sym same,
    )
  where
    changed_CursorNotBefore :
        (row : CheckpointRow)
        → checkpoint_fits q (next_checkpoint c e at) row ≡ true
        → CursorNotBefore
            (row_cursor row)
            (row_cursor (changed_where q (next_checkpoint c e at) row))
    changed_CursorNotBefore row fits = elim (Bool-cases (q row)) [
      | inl hit ↦ rw hit (
          guard-CursorNotBefore row (next_checkpoint c e at row)
            (checkpoint_fits-guard q (next_checkpoint c e at) row hit fits))
      | inr miss ↦ rw miss (CursorNotBefore-refl (row_cursor row))
    ]
