-- ===== src/Commit/Same.antt =====
-- The rows of src/reconciliation_commit.rs: what the values bound to a statement say of its row.
use rhi.Attempt.Types.{AttemptPlan}
use rhi.Commit.Operation.{insert_source_result, one_inserted, insert_attempt}
use rhi.Commit.Rows.{
  attempt_row, insert_reconciliation_row, insert_source_row, same_attempt_row, same_source_row,
  i64_value, source_row, first_trade, i64_option, created_at_of, accepted_inventory_digest,
}
use rhi.Commit.Types.{CommitError, SourceRow, AttemptRow, CommitTables}
use rhi.Replay.Types.{CommitParts}
use rhi.Base.{
  ok, true, false, refl, ◌∷◌, Bool, List, Option, ℕ, iff, ◌=?◌, ◌≡◌, =?_iff, and_then-ok, ap, arith,
  same_bytes_self, leb, ok-injective, ◌==◌, ◌∙◌, length, max_i64, sym, guarded-ok,
}

iff_self : (b : Bool) → iff b b ≡ true
iff_self true = refl
iff_self false = refl

=?_self : (o : Option ℕ) → (o =? o) ≡ true
=?_self o = (=?_iff o o).1 refl

pub same_source_row_self : (r : SourceRow) → same_source_row r r ≡ true
unfolding same_source_row
same_source_row_self r =
    rw
      (
        same_bytes_self r.source_id,
        iff_self r.required,
        =?_self r.first_observed_unix_s,
        =?_self r.prior_cursor_created_at_unix_s,
        =?_self r.prior_cursor_event_id,
        =?_self r.candidate_created_at_unix_s,
        =?_self r.candidate_event_id,
        iff_self r.checkpoint_advanced,
      )
      (ground arith)

pub same_attempt_row_self : (r : AttemptRow) → same_attempt_row r r ≡ true
unfolding same_attempt_row
same_attempt_row_self r = ground arith

-- Rows that match are of one attempt and at one place in it.
pub same_source_row-place :
    (r s : SourceRow)
    → same_source_row r s ≡ true
    → (s.attempt_id ≡ r.attempt_id) × (s.source_ordinal ≡ r.source_ordinal)
unfolding same_source_row
same_source_row-place r s h = (ground arith, ground arith)

pub same_attempt_row-id :
    (r s : AttemptRow) → same_attempt_row r s ≡ true → s.attempt_id ≡ r.attempt_id
unfolding same_attempt_row
same_attempt_row-id r s h = ground arith

i64_value-ok : (value : ℕ) {out : ℕ} → i64_value value ≡ ok out → value ≡ out
i64_value-ok value h = (guarded-ok (leb value max_i64) value CommitError.storage h).1

one_inserted-ok :
    (n : ℕ) (db : CommitTables) {db' : CommitTables} → one_inserted (n, db) ≡ ok db' → db ≡ db'
one_inserted-ok n db h = (guarded-ok (n == 1) db CommitError.storage h).1

inserted :
    (row : SourceRow) (db : CommitTables) (n : ℕ) (db' : CommitTables)
    → insert_source_row row db ≡ ok (n, db')
    → record db { sources = row ∷ db.sources } ≡ db'
unfolding insert_source_row
inserted row db n db' h =
    ap (λ (p : ℕ × CommitTables). p.1)
      (guarded-ok _ (1, record db { sources = row ∷ db.sources }) CommitError.storage h).1

inserted_attempt :
    (row : AttemptRow) (db : CommitTables) (n : ℕ) (db' : CommitTables)
    → insert_reconciliation_row row db ≡ ok (n, db')
    → record db { attempts = row ∷ db.attempts } ≡ db'
unfolding insert_reconciliation_row
inserted_attempt row db n db' h =
    ap (λ (p : ℕ × CommitTables). p.1)
      (guarded-ok _ (1, record db { attempts = row ∷ db.attempts }) CommitError.storage h).1

attempt_row-id :
    (plan : AttemptPlan) (row : AttemptRow) → attempt_row plan ≡ ok row → row.attempt_id ≡ plan.id
unfolding attempt_row
attempt_row-id plan row h =
    let (trade, _, h1) = and_then-ok (first_trade plan.requests) h in
    let (generation, _, h2) = and_then-ok (i64_value plan.input_generation) h1 in
    let (started, _, h3) = and_then-ok (i64_value plan.attempt_started_at) h2 in
    let (deadline, _, h4) = and_then-ok (i64_value plan.deadline) h3 in
    let (sources, _, h5) = and_then-ok (i64_value (length plan.requests)) h4 in
    ap (λ (r : AttemptRow). r.attempt_id) (sym (ok-injective h5))

module _ (sha256 : List ℕ → ℕ) where
  pub source_row-place :
      (id ordinal : ℕ) (part : CommitParts) (row : SourceRow)
      → source_row sha256 id ordinal part ≡ ok row
      → (row.attempt_id ≡ id) × (row.source_ordinal ≡ ordinal)
  unfolding source_row
  source_row-place id ordinal part row h =
      let (prior, _, h1) = and_then-ok (i64_option (created_at_of part.prior_cursor)) h in
      let (candidate, _, h2) = and_then-ok (i64_option (created_at_of part.cursor_candidate)) h1 in
      let (inventory, _, h3) = and_then-ok (accepted_inventory_digest sha256 part.facts) h2 in
      let (position, e, h4) = and_then-ok (i64_value ordinal) h3 in
      let (started, _, h5) = and_then-ok (i64_value part.result.started_at) h4 in
      let (finished, _, h6) = and_then-ok (i64_value part.result.finished_at) h5 in
      let (bytes, _, h7) = and_then-ok (i64_value part.result.accepted_event_bytes) h6 in
      let (first, _, h8) = and_then-ok (i64_option part.first_observed_at) h7 in
      let (overlap, _, h9) = and_then-ok (i64_value part.overlap_seconds) h8 in
      let (since, _, h10) = and_then-ok (i64_value part.since_unix_seconds) h9 in
      let same = ok-injective h10 in
      (
        ap (λ (r : SourceRow). r.attempt_id) (sym same),
        ap (λ (r : SourceRow). r.source_ordinal) (sym same) ∙ sym (i64_value-ok ordinal e),
      )

  -- An insertion that goes well puts the row at the head of the table.
  pub insert_source_result-ok :
      (id ordinal : ℕ) (part : CommitParts) (db db' : CommitTables)
      → insert_source_result sha256 id ordinal part db ≡ ok db'
      → (row : SourceRow) × (source_row sha256 id ordinal part ≡ ok row)
        × (record db { sources = row ∷ db.sources } ≡ db')
  unfolding insert_source_result
  insert_source_result-ok id ordinal part db db' h =
      let (row, e1, h1) = and_then-ok (source_row sha256 id ordinal part) h in
      let ((n, db1), e2, h2) = and_then-ok (insert_source_row row db) h1 in
      (row, e1, inserted row db n db1 e2 ∙ one_inserted-ok n db1 h2)

pub insert_attempt-ok :
    (plan : AttemptPlan) (db db' : CommitTables)
    → insert_attempt plan db ≡ ok db'
    → (row : AttemptRow) × (attempt_row plan ≡ ok row)
      × (row.attempt_id ≡ plan.id)
      × (record db { attempts = row ∷ db.attempts } ≡ db')
unfolding insert_attempt
insert_attempt-ok plan db db' h =
    let (row, e1, h1) = and_then-ok (attempt_row plan) h in
    let ((n, db1), e2, h2) = and_then-ok (insert_reconciliation_row row db) h1 in
    (
      row,
      e1,
      attempt_row-id plan row e1,
      inserted_attempt row db n db1 e2 ∙ one_inserted-ok n db1 h2,
    )
