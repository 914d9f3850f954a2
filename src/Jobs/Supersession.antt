-- ===== src/Jobs/Supersession.antt =====
-- How `schedule` of src/reconciliation_job.rs makes way for a trade's new job.
use rhi.Jobs.Target.{hits, row_of}
use rhi.Jobs.Rows.{supersede-fits}
use rhi.Jobs.Operations.{supersede_active}
use rhi.Jobs.Choice.{Among-filter, Among-row_of, Among-RowValid}
use rhi.Jobs.Decode.{read_active_job}
use rhi.Jobs.Statements.{supersedes, supersede}
use rhi.Jobs.Types.{Job, dirty_generation_conflict}
use rhi.Jobs.Tables.{AllSucceed, NotBefore, Succeeds-refl, RowsFit-of_NotBefore, keeps_rooms}
use rhi.Jobs.Active.{active_of, none_active-supersede, any_of_filter-nil, not_two_active}
use rhi.Jobs.Swap.{updated, swap_cases, lt→leb, i64_value-le}
use rhi.Jobs.Valid.{DbValid, job_of, decode-RowValid}
use rhi.Jobs.Schema.{Row}
use rhi.Jobs.Store.{Db, DirtyRow, update_jobs}
use rhi.Base.{
  ℕ, refl, [], true, false, inl, inr, ok, err, suc, ◌∷◌, List, Option, filter, ◌≡◌, ◌≤◌, any,
  max_i64, subst, ◌<◌, ◌⊎◌, ==_self, &&-right, arith, none, some, le_or_lt, le→leb,
}

-- The tables once the active job of the trade, if there is one, is superseded.
abbrev pub displace : ℕ → Db → List Row → Db
displace now db [] = db
displace now db (r ∷ rows) = updated (supersedes r.job_id r.revision) (supersede now) db

abbrev pub cleared : ℕ → ℕ → Db → Db
cleared trade_id now db = displace now db (filter (active_of trade_id) db.jobs)

-- The trade's active job is of the dirty generation or a later one.
abbrev pub IsCurrent : ℕ → DirtyRow → Db → Type 0
IsCurrent trade_id dirty db =
    (r : Row) × (filter (active_of trade_id) db.jobs ≡ r ∷ [])
    × (dirty.generation ≤ r.input_generation)

same_AllSucceed : (rows : List Row) → AllSucceed rows rows
same_AllSucceed [] = tt
same_AllSucceed (r ∷ rows) = (Succeeds-refl r, same_AllSucceed rows)

module _ (sha256 : List ℕ → ℕ) (room now trade_id : ℕ) (dirty : DirtyRow) (db : Db) where
  -- What is left to do once the active job is read: nothing but to insert, or to give up.
  abbrev pub Supersession : Type 0
  Supersession =
      (active : Option Job) × (read_active_job sha256 trade_id db ≡ ok active)
      × (((supersede_active sha256 active dirty now db ≡ err dirty_generation_conflict)
            × IsCurrent trade_id dirty db)
          ⊎ ((supersede_active sha256 active dirty now db ≡ ok (cleared trade_id now db))
              × DbValid sha256 room (cleared trade_id now db)
              × AllSucceed db.jobs (cleared trade_id now db).jobs
              × (any (active_of trade_id) (cleared trade_id now db).jobs ≡ false)
              × ((cleared trade_id now db).dirty ≡ db.dirty)))

  module _ (v : DbValid sha256 (suc room) db) (late : NotBefore now db.jobs)
      (small : now ≤ max_i64) where
    supersede_one :
        (a : Row)
        → filter (active_of trade_id) db.jobs ≡ a ∷ []
        → a.input_generation < dirty.generation
        → let db' = updated (supersedes a.job_id a.revision) (supersede now) db in
          (update_jobs (supersedes a.job_id a.revision) (supersede now) db ≡ ok (1, db'))
          × DbValid sha256 room db'
          × AllSucceed db.jobs db'.jobs
          × (any (active_of trade_id) db'.jobs ≡ false)
    supersede_one a h older =
        let (member, active) = Among-filter (active_of trade_id) a db.jobs (rw h (inl refl)) in
        let found = Among-row_of a db.jobs v.distinct member in
        let taken : supersedes a.job_id a.revision a ≡ true =
          rw (==_self a.job_id, ==_self a.revision) (&&-right _ _ active) in
        let fits = RowsFit-of_NotBefore sha256 room _ _ now db.jobs v.rows late (λ r w hit later.
          supersede-fits sha256 room (supersedes a.job_id a.revision) now r w (ground arith) later
            small) in
        let gone =
          none_active-supersede trade_id (supersedes a.job_id a.revision) (supersede now)
            (λ r. refl) db.jobs a h taken in
        elim (swap_cases sha256 room db v a.job_id (supersedes a.job_id a.revision) (supersede now)
          (λ s k. ground arith) (λ s. refl) fits) [
            | inl (e, lost) ↦
                let one : hits (supersedes a.job_id a.revision) (row_of a.job_id db.jobs) ≡ 1 =
                  rw found (rw taken) in
                absurd (omega arith)
            | inr (s, at_s, hit, e, valid, read, moved) ↦ (e, valid, moved, gone)
          ]

    weaker : DbValid sha256 room db
    weaker = record {
      rows = keeps_rooms sha256 room db.jobs v.rows;
      distinct = v.distinct;
      single = v.single;
    }

    by_active : (active : List Row) → filter (active_of trade_id) db.jobs ≡ active → Supersession
    unfolding read_active_job
    by_active [] h =
        let still : cleared trade_id now db ≡ db = rw h in
        (
          none,
          rw h,
          inr (
            rw h,
            rw still weaker,
            rw still (same_AllSucceed db.jobs),
            rw still (any_of_filter-nil trade_id db.jobs h),
            rw still refl,
          ),
        )
    by_active (a ∷ []) h =
        let (member, active) = Among-filter (active_of trade_id) a db.jobs (rw h (inl refl)) in
        let valid = Among-RowValid sha256 (suc room) db.jobs a v.rows member in
        let read : read_active_job sha256 trade_id db ≡ ok (some (job_of a)) =
          rw (h, decode-RowValid sha256 a valid) in
        elim (le_or_lt dirty.generation a.input_generation) [
          | inl current ↦ (some (job_of a), read, inl (rw (le→leb _ _ current), (a, h, current)))
          | inr older ↦
              let (e, valid', moved, gone) = supersede_one a h older in
              let to : updated (supersedes a.job_id a.revision) (supersede now) db
                  ≡ cleared trade_id now db =
                rw h in
              (
                some (job_of a),
                read,
                inr (
                  rw (lt→leb _ _ older, i64_value-le now small, e) (rw h),
                  subst (DbValid sha256 room) to valid',
                  subst (λ d. AllSucceed db.jobs d.jobs) to moved,
                  subst (λ d. any (active_of trade_id) d.jobs ≡ false) to gone,
                  subst (λ d. d.dirty ≡ db.dirty) to refl,
                ),
              )
        ]
    by_active (a ∷ b ∷ rest) h = absurd (not_two_active trade_id db.jobs a b rest v.single h)

    pub supersession-cases : Supersession
    supersession-cases = by_active (filter (active_of trade_id) db.jobs) refl
