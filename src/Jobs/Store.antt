-- ===== src/Jobs/Store.antt =====
-- The two tables that src/reconciliation_job.rs reads and writes, and the statements it runs on
-- them: an UPDATE or INSERT that breaks the schema aborts, which the code reports as `Storage`.
use rhi.Base.{
  ℕ, Bool, ◌&&◌, ◌||◌, not, List, ◌∷◌, Result, ok, err, ltb, ◌==◌, all, any, count, update_where,
  if◌then◌else◌,
}
use rhi.Jobs.Types.{OperationError, storage}
use rhi.Jobs.Schema.{Row, row_checks, guard_update, one_active_per_trade}

-- A row of `trade_dirty_generations`.
pub record DirtyRow : Type 0 where
  pub trade_id : ℕ
  pub generation : ℕ
  pub evidence_policy_sha256 : ℕ

pub record Db : Type 0 where
  pub jobs : List Row
  pub dirty : List DirtyRow

abbrev pub OpResult : Type 0 → Type 0
OpResult A = Result OperationError A

abbrev pub row_change_fits : (Row → Bool) → (Row → Row) → Row → Bool
row_change_fits p f r = not (p r) || (row_checks (f r) && guard_update r (f r))

-- `UPDATE reconciliation_jobs SET f WHERE p`, with the number of rows affected.
unfoldable pub update_jobs : (Row → Bool) → (Row → Row) → Db → OpResult (ℕ × Db)
update_jobs p f db =
    let rows = update_where p f db.jobs in
    if all (row_change_fits p f) db.jobs && one_active_per_trade rows
    then ok (count p db.jobs, record db { jobs = rows })
    else err storage

-- `INSERT INTO reconciliation_jobs`: the primary key, the checks, the foreign key and the index.
unfoldable pub insert_job : Row → Db → OpResult (ℕ × Db)
insert_job r db =
    if row_checks r
      && not (any (λ s. s.job_id == r.job_id) db.jobs)
      && any (λ d. d.trade_id == r.trade_id) db.dirty
      && one_active_per_trade (r ∷ db.jobs)
    then ok (1, record db { jobs = r ∷ db.jobs })
    else err storage

-- `ORDER BY key, created_at_unix_ms, job_id`.
unfoldable pub before_by : (Row → ℕ) → Row → Row → Bool
before_by key r s =
    ltb (key r) (key s)
    || (key r == key s
        && (ltb r.created_at_unix_ms s.created_at_unix_ms
            || (r.created_at_unix_ms == s.created_at_unix_ms && ltb r.job_id s.job_id)))

-- Whether a row is among the first `limit` rows of `SELECT … WHERE p ORDER BY before LIMIT limit`.
unfoldable pub among_first : ℕ → (Row → Bool) → (Row → Row → Bool) → List Row → Row → Bool
among_first limit p before rows r = p r && ltb (count (λ s. p s && before s r) rows) limit
