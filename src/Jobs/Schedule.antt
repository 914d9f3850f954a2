-- ===== src/Jobs/Schedule.antt =====
-- `schedule` of src/reconciliation_job.rs on well-formed tables.
use rhi.Jobs.Swap.{lt→leb, i64_value-le}
use rhi.Jobs.Active.{active_of, same_active-any}
use rhi.Jobs.Choice.{any_of_row_of}
use rhi.Jobs.History.{Extends, AllSucceed-Extends}
use rhi.Jobs.Backoff.{PolicyValid}
use rhi.Jobs.Valid.{job_of, DbValid, RowValid}
use rhi.Jobs.Tables.{AllSucceed, NotBefore}
use rhi.Jobs.Target.{row_of, read_job-DbValid}
use rhi.Jobs.Statements.{fresh_row}
use rhi.Jobs.Operations.{schedule, same_identity, supersede_active}
use rhi.Jobs.Supersession.{cleared, IsCurrent, supersession-cases}
use rhi.Jobs.Decode.{job_id, read_dirty, bounded, read_active_job}
use rhi.Jobs.Schema.{
  is_active, Row, column_checks, shape_checks, one_active_per_trade, row_checks, same_active_trade,
}
use rhi.Jobs.Types.{JobPolicy, dirty_generation_conflict, storage, queue_full, Job}
use rhi.Jobs.Store.{Db, DirtyRow, insert_job}
use rhi.Base.{
  ℕ, refl, [], none, some, true, false, inl, inr, ok, err, ◌∷◌, List, count, any, ◌≡◌,
  if◌then◌else◌, ◌==◌, ◌≤◌, Bool-cases, max_i64, arith, ◌+◌, ◌⊎◌, Bool, Option-cases, ◌>>=◌, find,
  subst, ==_iff, between, suc, ok-injective, ap, le_or_lt, Option, le→leb, ◌<◌, ==_self, ◌∙◌,
  err_ne_ok,
}

abbrev pub active_count : Db → ℕ
active_count db = count (λ r. is_active r.state) db.jobs

any_of_find :
    (p : DirtyRow → Bool) (rows : List DirtyRow) (d : DirtyRow)
    → find p rows ≡ some d
    → any p rows ≡ true
any_of_find p [] d h = cc
any_of_find p (r ∷ rows) d h = elim (Bool-cases (p r)) [
  | inl hit ↦ rw hit
  | inr miss ↦ rw miss (any_of_find p rows d (rw miss at h))
]

bounded-facts :
    (d e : DirtyRow)
    → (do generation ← bounded 1 max_i64 d.generation; ok (record d { generation = generation }))
      ≡ ok e
    → (1 ≤ e.generation) × (e.generation ≤ max_i64)
bounded-facts d e h = elim (Bool-cases (between 1 max_i64 d.generation)) [
  | inl inside ↦
      let same : record d { generation = d.generation } ≡ e = ok-injective (rw inside at h) in
      let same_generation : d.generation ≡ e.generation =
        ap (λ (z : DirtyRow). z.generation) same in
      (ground arith, ground arith)
  | inr outside ↦ absurd (err_ne_ok (rw outside at h))
]

module _ (sha256 : List ℕ → ℕ) (room trade_id now : ℕ) (policy : JobPolicy) (dirty : DirtyRow)
    (db : Db) where
  abbrev pub id_for : ℕ
  id_for = job_id sha256 trade_id dirty.generation dirty.evidence_policy_sha256

  abbrev pub new_row : Row
  new_row = fresh_row id_for trade_id dirty policy now

  abbrev pub scheduled_db : Db
  scheduled_db = record (cleared trade_id now db) {
    jobs = new_row ∷ (cleared trade_id now db).jobs;
  }

  -- The job of the same input is there already: it is returned, unless another input has its id.
  abbrev pub Known : Type 0
  Known =
      (r : Row) × (row_of id_for db.jobs ≡ some r)
      × (schedule sha256 trade_id policy now db ≡ (
          if same_identity sha256 (job_of r) trade_id dirty
          then ok (record { job = job_of r; created = false }, db)
          else err storage))

  -- The trade's active job is as new as the input, or the queue is full.
  abbrev pub Refused : Type 0
  Refused =
      ((schedule sha256 trade_id policy now db ≡ err dirty_generation_conflict)
        × IsCurrent trade_id dirty db)
      ⊎ ((schedule sha256 trade_id policy now db ≡ err queue_full)
          × (policy.queue_capacity ≤ active_count (cleared trade_id now db)))

  -- A new ready job is in the table, and the queue is within its capacity.
  abbrev pub Created : Type 0
  Created =
      (schedule sha256 trade_id policy now db
        ≡ ok (record { job = job_of new_row; created = true }, scheduled_db))
      × (row_of id_for scheduled_db.jobs ≡ some new_row)
      × DbValid sha256 room scheduled_db
      × Extends db scheduled_db
      × (active_count scheduled_db ≤ policy.queue_capacity)
      × (scheduled_db.dirty ≡ db.dirty)

  absent_after :
      (id : ℕ) (rs ss : List Row)
      → AllSucceed rs ss
      → row_of id rs ≡ none
      → any (λ s. s.job_id == id) ss ≡ false
  absent_after id [] [] a h = refl
  absent_after id [] (s ∷ ss) a h = absurd a
  absent_after id (r ∷ rs) [] a h = absurd a
  absent_after id (r ∷ rs) (s ∷ ss) a h = elim (Bool-cases (r.job_id == id)) [
    | inl hit ↦ cc
    | inr miss ↦ ground (arith, a.0.same_id, absent_after id rs ss a.1)
  ]

  Extends-cons :
      (r : Row) (rows : List Row) (id : ℕ) (s : Row)
      → any (λ x. x.job_id == r.job_id) rows ≡ false
      → row_of id rows ≡ some s
      → row_of id (r ∷ rows) ≡ some s
  Extends-cons r rows id s fresh found = elim (Bool-cases (r.job_id == id)) [
    | inl hit ↦
        let known : any (λ x. x.job_id == id) rows ≡ true = any_of_row_of id rows found in
        let unknown : any (λ x. x.job_id == id) rows ≡ false =
          subst (λ k. any (λ x. x.job_id == k) rows ≡ false) ((==_iff r.job_id id).0 hit) fresh in
        cc
    | inr miss ↦ rw miss found
  ]

  read_dirty-facts :
      read_dirty trade_id db ≡ ok dirty
      → (1 ≤ dirty.generation)
        × (dirty.generation ≤ max_i64)
        × (any (λ d. d.trade_id == trade_id) db.dirty ≡ true)
  unfolding read_dirty
  read_dirty-facts h = elim (Option-cases (find (λ d. d.trade_id == trade_id) db.dirty)) [
    | inl missing ↦ absurd (err_ne_ok (rw missing at h))
    | inr (d, found) ↦
        let (low, high) = bounded-facts d dirty (rw found at h) in
        (low, high, any_of_find (λ d. d.trade_id == trade_id) db.dirty d found)
  ]

  new_row-RowValid :
      PolicyValid policy
      → 1 ≤ dirty.generation
      → dirty.generation ≤ max_i64
      → now ≤ max_i64
      → 1 + room ≤ max_i64
      → RowValid sha256 room new_row
  unfolding column_checks shape_checks
  new_row-RowValid v low high small roomy = record {
    columns = ground (
      arith, v.duration, v.renewal, v.renewed_early, v.attempts, v.initial, v.maximum, v.ordered,
    );
    shape = ground (arith, v.attempts);
    identity = refl;
    roomy = roomy;
    owned = refl;
    unfailed = λ h. cc;
    within = omega arith;
  }

  module _ (v : DbValid sha256 (suc room) db) (late : NotBefore now db.jobs) (small : now ≤ max_i64)
      (roomy : 1 + room ≤ max_i64) (usual : PolicyValid policy)
      (read : read_dirty trade_id db ≡ ok dirty) where
    created_step :
        (active : Option Job)
        → row_of id_for db.jobs ≡ none
        → read_active_job sha256 trade_id db ≡ ok active
        → supersede_active sha256 active dirty now db ≡ ok (cleared trade_id now db)
        → DbValid sha256 room (cleared trade_id now db)
        → AllSucceed db.jobs (cleared trade_id now db).jobs
        → any (active_of trade_id) (cleared trade_id now db).jobs ≡ false
        → (cleared trade_id now db).dirty ≡ db.dirty
        → active_count (cleared trade_id now db) < policy.queue_capacity
        → Created
    unfolding schedule insert_job one_active_per_trade row_checks
    created_step active unknown e e' valid moved gone same_dirty space =
        let (low, high, known_trade) = read_dirty-facts read in
        let rows = (cleared trade_id now db).jobs in
        let fresh = absent_after id_for db.jobs rows moved unknown in
        let fits = new_row-RowValid usual low high small roomy in
        let alone : any (same_active_trade new_row) rows ≡ false =
          same_active-any trade_id new_row rows (rw (==_self trade_id)) ∙ gone in
        let index : one_active_per_trade (new_row ∷ rows) ≡ true = rw (alone, valid.single) in
        let valid' : DbValid sha256 room scheduled_db = record {
          rows = (fits, valid.rows);
          distinct = (fresh, valid.distinct);
          single = index;
        } in
        let here : row_of id_for scheduled_db.jobs ≡ some new_row = rw (==_self id_for) in
        let inserted : insert_job new_row (cleared trade_id now db) ≡ ok (1, scheduled_db) =
          rw (fits.columns, fits.shape, fresh, same_dirty, known_trade, alone, valid.single) in
        (
          rw (
            read,
            read_job-DbValid sha256 (suc room) id_for db v,
            unknown,
            e,
            e',
            lt→leb _ _ space,
            i64_value-le now small,
            inserted,
            read_job-DbValid sha256 room id_for scheduled_db valid',
            here,
          ),
          here,
          valid',
          λ id r found.
              let (s, at_s, near) =
                AllSucceed-Extends db (cleared trade_id now db) moved id r found in
              (s, Extends-cons new_row rows id s fresh at_s, near),
          omega arith,
          same_dirty,
        )

    -- On well-formed tables that the clock is not behind, for a policy in range and a trade whose
    -- dirty generation reads, `schedule` has four ends. A job under the input's id is returned as
    -- not created (or is a storage error if it is of another input); a current active job is a
    -- conflict; a full queue is refused; and otherwise a ready job is created, an older active job
    -- of the trade is superseded, the tables stay well formed with no job lost, and the active
    -- jobs are within the policy's capacity.
    pub schedule-cases : Known ⊎ Refused ⊎ Created
    unfolding schedule
    schedule-cases = elim (Option-cases (row_of id_for db.jobs)) [
      | inr (r, found) ↦
          inl (r, found, rw (read, read_job-DbValid sha256 (suc room) id_for db v, found))
      | inl unknown ↦
          let (active, e, cases) =
            supersession-cases sha256 room now trade_id dirty db v late small in
          elim cases [
            | inl (e', current) ↦ inr (
                inl (
                  inl (
                    rw (read, read_job-DbValid sha256 (suc room) id_for db v, unknown, e, e'),
                    current,
                  )))
            | inr (e', valid, moved, gone, same_dirty) ↦
                elim (le_or_lt policy.queue_capacity (active_count (cleared trade_id now db))) [
                  | inl full ↦ inr (
                      inl (
                        inr (
                          rw (
                            read,
                            read_job-DbValid sha256 (suc room) id_for db v,
                            unknown,
                            e,
                            e',
                            le→leb _ _ full,
                          ),
                          full,
                        )))
                  | inr space ↦
                      inr (inr (created_step active unknown e e' valid moved gone same_dirty space))
                ]
          ]
    ]
