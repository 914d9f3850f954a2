-- ===== src/Jobs/Target.antt =====
-- A compare-and-swap on one job: an UPDATE whose condition names the job's id changes the job's row
-- or no row, and reading the job back gives what was written.
use rhi.Jobs.Valid.{DbValid, RowValid, job_of, DistinctIds, decode-RowValid}
use rhi.Jobs.Store.{Db}
use rhi.Jobs.Types.{Job}
use rhi.Jobs.Decode.{read_job}
use rhi.Jobs.Schema.{Row}
use rhi.Base.{
  ℕ, refl, List, Option, All, Bool, find, some, ◌==◌, ◌≡◌, if◌then◌else◌, ok, true, ◌∷◌, Bool-cases,
  Option-cases, any, update_where, count, false, inl, arith, inr, subst, ==_iff, [], none, ◌∙◌,
}

abbrev pub row_of : ℕ → List Row → Option Row
row_of id rows = find (λ r. r.job_id == id) rows

abbrev pub changed_row : (Row → Bool) → (Row → Row) → Option Row → Option Row
changed_row p f none = none
changed_row p f (some r) = some (if p r then f r else r)

abbrev pub hits : (Row → Bool) → Option Row → ℕ
hits p none = 0
hits p (some r) = if p r then 1 else 0

abbrev pub job_of_row : Option Row → Option Job
job_of_row none = none
job_of_row (some r) = some (job_of r)

module _ (id : ℕ) (p : Row → Bool) (targets : (r : Row) → p r ≡ true → r.job_id ≡ id) where
  count_absent : (rows : List Row) → any (λ s. s.job_id == id) rows ≡ false → count p rows ≡ 0
  count_absent [] h = refl
  count_absent (r ∷ rows) h = elim (Bool-cases (p r)) [
    | inl hit ↦ ground (arith, targets r hit)
    | inr miss ↦ rw miss (ground (arith, count_absent rows))
  ]

  pub count-row_of : (rows : List Row) → DistinctIds rows → count p rows ≡ hits p (row_of id rows)
  count-row_of [] d = refl
  count-row_of (r ∷ rows) d = elim (Bool-cases (r.job_id == id)) [
    | inl same ↦ rw same (
        ground (
          arith,
          count_absent rows (
              subst (λ k. any (λ s. s.job_id == k) rows ≡ false) ((==_iff r.job_id id).0 same) d.0),
        ))
    | inr other ↦ elim (Bool-cases (p r)) [
      | inl hit ↦ ground (arith, targets r hit)
      | inr miss ↦ rw (other, miss) (count-row_of rows d.1)
    ]
  ]

  pub row_of-update_where :
      (f : Row → Row) (same_id : (r : Row) → (f r).job_id ≡ r.job_id) (rows : List Row)
      → row_of id (update_where p f rows) ≡ changed_row p f (row_of id rows)
  row_of-update_where f same_id [] = refl
  row_of-update_where f same_id (r ∷ rows) = elim (Bool-cases (p r)) [
    | inl hit ↦
        let here : (r.job_id == id) ≡ true = (==_iff _ _).1 (targets r hit) in
        let there : ((f r).job_id == id) ≡ true = (==_iff _ _).1 (same_id r ∙ targets r hit) in
        rw (hit, here, there) (rw hit)
    | inr miss ↦ ground (arith, row_of-update_where f same_id rows)
  ]

pub row_of-RowValid :
    (sha256 : List ℕ → ℕ) (room id : ℕ) (rows : List Row) {r : Row}
    → All (RowValid sha256 room) rows
    → row_of id rows ≡ some r
    → RowValid sha256 room r × (r.job_id ≡ id)
row_of-RowValid sha256 room id [] v h = cc
row_of-RowValid sha256 room id (x ∷ rows) {r} v h = elim (Bool-cases (x.job_id == id)) [
  | inl same ↦
      let e : x ≡ r = ground arith in
      (subst (RowValid sha256 room) e v.0, ground (arith, (==_iff x.job_id id).0 same))
  | inr other ↦ row_of-RowValid sha256 room id rows v.1 (ground arith)
]

-- Reading a job of well-formed tables gives its row.
pub read_job-DbValid :
    (sha256 : List ℕ → ℕ) (room id : ℕ) (db : Db)
    → DbValid sha256 room db
    → read_job sha256 id db ≡ ok (job_of_row (row_of id db.jobs))
unfolding read_job
read_job-DbValid sha256 room id db v = elim (Option-cases (row_of id db.jobs)) [
  | inl missing ↦ rw missing
  | inr (r, found) ↦
      rw (found, decode-RowValid sha256 r (row_of-RowValid sha256 room id db.jobs v.rows found).0)
]
