-- ===== src/Commit/Reached.antt =====
-- The checkpoints that src/reconciliation_commit.rs advances, as `reconcile_existing` finds them later.
use rhi.Replay.Canonical.{is_lt, compare_cursor}
use rhi.Trade.Fenced.{write_checkpoint-Wrote}
use rhi.Commit.Existing.{candidate_reached}
use rhi.Trade.Settled.{TradeValid, Forward, Forward-refl, checkpoint_step}
use rhi.Trade.Cursors.{CheckpointsAdvance, CursorNotBefore, row_cursor}
use rhi.Commit.Operation.{advance_checkpoint}
use rhi.Trade.Outcome.{AtCursor}
use rhi.Trade.Checkpoints.{read_checkpoint, at_scope, write_checkpoint}
use rhi.Commit.Types.{CommitTables, map_source_error}
use rhi.Trade.Types.{TradeTables, Checkpoint, CheckpointRow, checkpoint_checks}
use rhi.Replay.Types.{CommitParts, Cursor}
use rhi.Base.{
  ok, some, none, true, false, refl, ℕ, List, Option, find, ◌≡◌, find-Contains, ok-injective, leb,
  subst, max_i64, arith, between, ◌/◌, map_err-ok, sym,
}

-- On well-formed tables the checkpoint of a scope reads as its row's cursor.
read_checkpoint-found :
    (s : List ℕ) (p t : ℕ) (row : CheckpointRow) (db : TradeTables)
    → TradeValid db
    → find (at_scope s p t) db.checkpoints ≡ some row
    → (c : Checkpoint) × (read_checkpoint s p t db ≡ ok (some c)) × (c.cursor ≡ row_cursor row)
unfolding read_checkpoint checkpoint_checks
read_checkpoint-found s p t row db v found =
    let fits = v.scopes.fits row (find-Contains (at_scope s p t) db.checkpoints row found).0 in
    let created : leb row.cursor_created_at_unix_s max_i64 ≡ true = ground arith in
    let revision : between 1 max_i64 row.revision ≡ true = ground arith in
    let completed : between 1 max_i64 row.completed_at_unix_s ≡ true = ground arith in
    (
      record {
        cursor = row_cursor row;
        revision = row.revision;
        completed_at_unix_s = row.completed_at_unix_s;
      },
      rw (found, created, revision, completed) refl,
      refl,
    )

-- A cursor that a scope has had is reached in all later tables.
pub AtCursor-reached :
    (policy : ℕ) (part : CommitParts) (candidate : Cursor) (db : TradeTables) (later : CommitTables)
    → AtCursor part.source_id policy part.trade_id candidate db
    → Forward db later.evidence
    → TradeValid later.evidence
    → candidate_reached policy part (some candidate) later ≡ ok tt
unfolding AtCursor CheckpointsAdvance CursorNotBefore
AtCursor-reached policy part candidate db later (row, found, same) forward v =
    let (row', found', on) = forward.checkpoints part.source_id policy part.trade_id row found in
    let (c, reads, is_row) =
      read_checkpoint-found part.source_id policy part.trade_id row' later.evidence v found' in
    let not_before : is_lt (compare_cursor c.cursor candidate) ≡ false =
      subst (λ z. is_lt (compare_cursor c.cursor z) ≡ false) same
        (subst (λ z. is_lt (compare_cursor z (row_cursor row)) ≡ false) (sym is_row) on) in
    rw (reads, not_before) refl

-- What `advance_checkpoint` leaves.
pub advance_checkpoint-ok :
    (policy : ℕ) (part : CommitParts) (checkpoint : Option Checkpoint) (eligible : Option Cursor)
    (db db' : TradeTables)
    → TradeValid db
    → advance_checkpoint policy part checkpoint eligible db ≡ ok db'
    → Forward db db'
      × TradeValid db'
      × ((later : CommitTables)
          → Forward db' later.evidence
          → TradeValid later.evidence
          → candidate_reached policy part eligible later ≡ ok tt)
unfolding advance_checkpoint AtCursor
advance_checkpoint-ok policy part checkpoint none db db' v h =
    let same = ok-injective h in
    (subst (Forward db) same (Forward-refl db), subst TradeValid same v, λ later forward w. refl)
advance_checkpoint-ok policy part checkpoint (some candidate) db db' v h =
    let wrote =
      write_checkpoint-Wrote part.source_id policy part.trade_id checkpoint candidate
        (part.result.finished_at / 1000) db v.scopes
        (map_err-ok map_source_error
          (write_checkpoint part.source_id policy part.trade_id checkpoint candidate
            (part.result.finished_at / 1000) db)
          h) in
    let (forward, valid) =
      checkpoint_step part.source_id policy part.trade_id candidate db db' wrote v in
    (
      forward,
      valid,
      λ later on w.
          AtCursor-reached policy part candidate db' later (wrote.row, wrote.found, wrote.cursor) on
            w,
    )
