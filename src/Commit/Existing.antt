-- ===== src/Commit/Existing.antt =====
-- `reconcile_existing` of src/reconciliation_commit.rs: an attempt that is committed already.
use rhi.Trade.Checkpoints.{read_checkpoint}
use rhi.Replay.Canonical.{is_lt, compare_cursor}
use rhi.Commit.Rows.{attempt_row, source_row, same_attempt_row, same_source_row}
use rhi.Attempt.Types.{AttemptPlan}
use rhi.Base.{
  [], none, some, true, false, ok, err, zero, suc, ◌∷◌, List, Option, ℕ, Bool, refuse, ◌>>=◌, count,
  map_err, ◌==◌, ◌>>◌, require, length, ◌+◌,
}
use rhi.Commit.Types.{SourceRow, CommitTables, CommitResult, conflict, map_source_error}
use rhi.Trade.Types.{Checkpoint}
use rhi.Replay.Types.{CommitParts, Cursor}

abbrev pub of_attempt : ℕ → SourceRow → Bool
of_attempt id r = r.attempt_id == id

-- `match_attempt` and `match_source_result`.
unfoldable pub match_attempt : AttemptPlan → CommitTables → CommitResult ℕ
match_attempt plan db = do row ← attempt_row plan; ok (count (same_attempt_row row) db.attempts)

-- A candidate that the attempt made eligible is at or before the checkpoint of its scope.
abbrev pub checkpoint_reaches : Option Checkpoint → Cursor → CommitResult (Unit {0})
checkpoint_reaches none candidate = err conflict
checkpoint_reaches (some checkpoint) candidate =
    refuse (is_lt (compare_cursor checkpoint.cursor candidate)) conflict

abbrev pub candidate_reached :
    ℕ → CommitParts → Option Cursor → CommitTables → CommitResult (Unit {0})
candidate_reached policy part none db = ok tt
candidate_reached policy part (some candidate) db = do
  checkpoint ←
      map_err map_source_error (read_checkpoint part.source_id policy part.trade_id db.evidence)
  checkpoint_reaches checkpoint candidate

module _ (sha256 : List ℕ → ℕ) where
  unfoldable pub match_source_result : ℕ → ℕ → CommitParts → CommitTables → CommitResult ℕ
  match_source_result id ordinal part db = do
    row ← source_row sha256 id ordinal part
    ok (count (same_source_row row) db.sources)

  -- The loop over the parts.
  unfoldable pub parts_committed :
      ℕ → ℕ → ℕ → List CommitParts → CommitTables → CommitResult (Unit {0})
  parts_committed id policy ordinal [] db = ok tt
  parts_committed id policy ordinal (part ∷ parts) db = do
    rows ← match_source_result id ordinal part db
    require (rows == 1) conflict
    candidate_reached policy part part.eligible_cursor db
    parts_committed id policy (ordinal + 1) parts db

  -- What follows the count of attempts under the id.
  abbrev pub reconcile_counted :
      ℕ → AttemptPlan → List CommitParts → CommitTables → CommitResult Bool
  reconcile_counted zero plan parts db = ok false
  reconcile_counted (suc more) plan parts db = do
    require (more == 0) conflict
    matches ← match_attempt plan db
    require (matches == 1) conflict
    require (count (of_attempt plan.id) db.sources == length parts) conflict
    parts_committed plan.id plan.policy_digest 0 parts db
    ok true

  unfoldable pub reconcile_existing :
      AttemptPlan → List CommitParts → CommitTables → CommitResult Bool
  reconcile_existing plan parts db =
      reconcile_counted (count (λ r. r.attempt_id == plan.id) db.attempts) plan parts db
