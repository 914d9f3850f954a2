-- ===== src/Commit/Parts.antt =====
-- The loop of src/reconciliation_commit.rs that writes the parts, and the loop that finds them again.
use rhi.Commit.Reached.{advance_checkpoint-ok}
use rhi.Commit.Same.{
  same_source_row-place, source_row-place, same_source_row_self, insert_source_result-ok,
}
use rhi.Commit.Rows.{source_row, same_source_row}
use rhi.Commit.Operation.{write_parts, advance_checkpoint, insert_source_result, with_evidence}
use rhi.Commit.Existing.{parts_committed, match_source_result, candidate_reached, of_attempt}
use rhi.Trade.Settled.{Forward, TradeValid, Forward-refl, Forward-trans}
use rhi.Commit.Types.{SourceRow, CommitTables}
use rhi.Trade.Types.{TradeTables, Checkpoint}
use rhi.Replay.Types.{CommitParts}
use rhi.Base.{
  ok, [], ◌∷◌, true, false, inl, inr, refl, suc, List, ℕ, Bool, Option, ◌==◌, length, ◌&&◌, ◌≡◌,
  arith, count, leb, subst, ok-injective, ◌+◌, count-implies, ◌<◌, and_then-ok, ◌∙◌, Bool-cases, ap,
  sym, ==_self,
}

-- Rows of an attempt at a place or after it.
abbrev pub open_from : ℕ → ℕ → SourceRow → Bool
open_from id ordinal r = r.attempt_id == id && leb ordinal r.source_ordinal

module _ (sha256 : List ℕ → ℕ) where
  pub record PartsWritten (id policy ordinal : ℕ) (parts : List CommitParts) (db db' : CommitTables)
      : Type 0 where
    pub forward : Forward db.evidence db'.evidence
    pub valid : TradeValid db'.evidence
    pub jobs : db'.jobs ≡ db.jobs
    pub attempts : db'.attempts ≡ db.attempts
    pub number : count (of_attempt id) db'.sources ≡ count (of_attempt id) db.sources + length parts
    pub others :
        (other : ℕ)
        → (id == other) ≡ false
        → count (of_attempt other) db'.sources ≡ count (of_attempt other) db.sources
    pub before :
        (q : SourceRow → Bool)
        → ((x : SourceRow) → q x ≡ true → x.source_ordinal < ordinal)
        → count q db'.sources ≡ count q db.sources
    pub again : parts_committed sha256 id policy ordinal parts db' ≡ ok tt

  nothing_written :
      (id policy ordinal : ℕ) (db : CommitTables)
      → TradeValid db.evidence
      → PartsWritten id policy ordinal [] db db
  unfolding parts_committed
  nothing_written id policy ordinal db v = record {
    forward = Forward-refl db.evidence;
    valid = v;
    jobs = refl;
    attempts = refl;
    number = omega arith;
    others = λ other differs. refl;
    before = λ q below. refl;
    again = refl;
  }

  -- One part is written, and then the others.
  part_written :
      (id policy ordinal : ℕ) (part : CommitParts) (parts : List CommitParts) (row : SourceRow)
      (db db' : CommitTables) (evidence : TradeTables)
      → source_row sha256 id ordinal part ≡ ok row
      → count (open_from id ordinal) db.sources ≡ 0
      → Forward db.evidence evidence
      → ((later : CommitTables)
          → Forward evidence later.evidence
          → TradeValid later.evidence
          → candidate_reached policy part part.eligible_cursor later ≡ ok tt)
      → PartsWritten id policy
          (ordinal + 1)
          parts
          (record db { evidence = evidence; sources = row ∷ db.sources })
          db'
      → PartsWritten id policy ordinal (part ∷ parts) db db'
  unfolding parts_committed match_source_result
  part_written id policy ordinal part parts row db db' evidence made free forward reached w =
      let (owned, placed) = source_row-place sha256 id ordinal part row made in
      let later_rows = w.before in
      let matched : count (same_source_row row) db'.sources ≡ 1 =
        w.before (same_source_row row) (λ x same. at_place row x placed same)
        ∙ rw (same_source_row_self row) (
            ap suc (
              count-implies (open_from id ordinal) (same_source_row row) db.sources
                (λ x same. opens row x owned placed same) free)) in
      record {
        forward = Forward-trans db.evidence evidence db'.evidence forward w.forward;
        valid = w.valid;
        jobs = w.jobs;
        attempts = w.attempts;
        number = w.number ∙ rw (owned, ==_self id) (omega arith);
        others = λ other differs. w.others other differs ∙ (rw (owned, differs) refl);
        before =
            λ q below. w.before q (λ x hit. later_place (below x hit)) ∙ other_rows q below placed;
        again = rw (made, matched, reached db' w.forward w.valid) w.again;
      }
    where
      at_place :
          (r x : SourceRow)
          → r.source_ordinal ≡ ordinal
          → same_source_row r x ≡ true
          → x.source_ordinal < ordinal + 1
      at_place r x placed same = let (_, there) = same_source_row-place r x same in omega arith

      opens :
          (r x : SourceRow)
          → r.attempt_id ≡ id
          → r.source_ordinal ≡ ordinal
          → same_source_row r x ≡ true
          → open_from id ordinal x ≡ true
      opens r x owned placed same =
          let (mine, there) = same_source_row-place r x same in
          let owner : x.attempt_id ≡ id = mine ∙ owned in
          let place : x.source_ordinal ≡ ordinal = there ∙ placed in ground arith

      later_place : {n : ℕ} → n < ordinal → n < ordinal + 1
      later_place h = omega arith

      other_rows :
          (q : SourceRow → Bool)
          → ((x : SourceRow) → q x ≡ true → x.source_ordinal < ordinal)
          → row.source_ordinal ≡ ordinal
          → count q (row ∷ db.sources) ≡ count q db.sources
      other_rows q below placed = elim (Bool-cases (q row)) [
        | inl hit ↦ let low = below row hit in absurd (omega arith)
        | inr miss ↦ rw miss refl
      ]

  pub write_parts-PartsWritten :
      (id policy ordinal : ℕ) (parts : List CommitParts) (checkpoints : List (Option Checkpoint))
      (db db' : CommitTables)
      → length checkpoints ≡ length parts
      → TradeValid db.evidence
      → count (open_from id ordinal) db.sources ≡ 0
      → write_parts sha256 id policy ordinal parts checkpoints db ≡ ok db'
      → PartsWritten id policy ordinal parts db db'
  unfolding write_parts
  write_parts-PartsWritten id policy ordinal [] checkpoints db db' zipped v free h =
      subst (PartsWritten id policy ordinal [] db) (ok-injective h)
        (nothing_written id policy ordinal db v)
  write_parts-PartsWritten id policy ordinal (part ∷ parts) [] db db' zipped v free h =
      absurd (omega arith)
  write_parts-PartsWritten id policy ordinal (part ∷ parts) (checkpoint ∷ checkpoints) db db' zipped
        v free h =
      let (evidence, e1, h1) =
        and_then-ok (advance_checkpoint policy part checkpoint part.eligible_cursor db.evidence)
          h in
      let (db1, e2, h2) =
        and_then-ok (insert_source_result sha256 id ordinal part (with_evidence db evidence)) h1 in
      let (forward, valid, reached) =
        advance_checkpoint-ok policy part checkpoint part.eligible_cursor db.evidence evidence v
          e1 in
      let (row, made, same) =
        insert_source_result-ok sha256 id ordinal part (with_evidence db evidence) db1 e2 in
      let (owned, placed) = source_row-place sha256 id ordinal part row made in
      let h3 : write_parts sha256 id policy (ordinal + 1) parts checkpoints
            (record db { evidence = evidence; sources = row ∷ db.sources })
          ≡ ok db' =
        subst (λ d. write_parts sha256 id policy (ordinal + 1) parts checkpoints d ≡ ok db')
          (sym same) h2 in
      part_written id policy ordinal part parts row db db' evidence made free forward reached (
        write_parts-PartsWritten id policy (ordinal + 1) parts checkpoints
          (record db { evidence = evidence; sources = row ∷ db.sources }) db' (omega arith) valid
          (still_free row placed) h3)
    where
      still_free :
          (r : SourceRow)
          → r.source_ordinal ≡ ordinal
          → count (open_from id (ordinal + 1)) (r ∷ db.sources) ≡ 0
      still_free r placed =
          let behind : open_from id (ordinal + 1) r ≡ false = ground arith in
          rw behind (
            count-implies (open_from id ordinal) (open_from id (ordinal + 1)) db.sources
              (λ x hit. ground arith) free)
