-- ===== src/Jobs/Tables.antt =====
-- Updates that keep the ids and trades of rows and activate none keep the keys and the index of the
-- table; an UPDATE whose rows all fit the schema goes through.
use rhi.Base.{
  ℕ, suc, ◌≤◌, ◌≡◌, refl, Bool, true, false, List, [], ◌∷◌, ok, arith, ◌==◌, any, all, count, All,
  update_where, Bool-cases, inl, inr,
}
use rhi.Jobs.Schema.{
  Row, row_checks, guard_update, is_active, same_active_trade, one_active_per_trade,
}
use rhi.Jobs.Store.{Db, update_jobs, row_change_fits}
use rhi.Jobs.Valid.{RowValid, DbValid, DistinctIds}

-- What every change of a row keeps.
pub record Succeeds (r s : Row) : Type 0 where
  pub same_id : s.job_id ≡ r.job_id
  pub same_trade : s.trade_id ≡ r.trade_id
  pub no_new_activity : is_active s.state ≡ true → is_active r.state ≡ true
  pub advances : r.revision ≤ s.revision
  pub attempts : r.attempt_count ≤ s.attempt_count
  pub same_limit : s.max_attempts ≡ r.max_attempts

pub Succeeds-refl : (r : Row) → Succeeds r r
Succeeds-refl r = record {
  same_id = refl;
  same_trade = refl;
  no_new_activity = λ h. h;
  advances = omega arith;
  attempts = omega arith;
  same_limit = refl;
}

abbrev pub AllSucceed : List Row → List Row → Type 0
AllSucceed [] [] = Unit {0}
AllSucceed [] (s ∷ ss) = ⊥
AllSucceed (r ∷ rs) [] = ⊥
AllSucceed (r ∷ rs) (s ∷ ss) = Succeeds r s × AllSucceed rs ss

any_id-Succeeds :
    (r s : Row) (rs ss : List Row)
    → Succeeds r s
    → AllSucceed rs ss
    → any (λ x. x.job_id == r.job_id) rs ≡ false
    → any (λ x. x.job_id == s.job_id) ss ≡ false
any_id-Succeeds r s [] [] e es h = refl
any_id-Succeeds r s [] (y ∷ ss) e es h = absurd es
any_id-Succeeds r s (x ∷ rs) [] e es h = absurd es
any_id-Succeeds r s (x ∷ rs) (y ∷ ss) e es h =
    ground (arith, es.0, any_id-Succeeds r s rs ss e es.1)

pub DistinctIds-Succeeds : (rs ss : List Row) → AllSucceed rs ss → DistinctIds rs → DistinctIds ss
DistinctIds-Succeeds [] [] es d = tt
DistinctIds-Succeeds [] (s ∷ ss) es d = absurd es
DistinctIds-Succeeds (r ∷ rs) [] es d = absurd es
DistinctIds-Succeeds (r ∷ rs) (s ∷ ss) es d =
    (any_id-Succeeds r s rs ss es.0 es.1 d.0, DistinctIds-Succeeds rs ss es.1 d.1)

same_active-Succeeds :
    (r s x y : Row)
    → Succeeds r s
    → Succeeds x y
    → same_active_trade r x ≡ false
    → same_active_trade s y ≡ false
same_active-Succeeds r s x y e d h = ground arith

any_active-Succeeds :
    (r s : Row) (rs ss : List Row)
    → Succeeds r s
    → AllSucceed rs ss
    → any (same_active_trade r) rs ≡ false
    → any (same_active_trade s) ss ≡ false
any_active-Succeeds r s [] [] e es h = refl
any_active-Succeeds r s [] (y ∷ ss) e es h = absurd es
any_active-Succeeds r s (x ∷ rs) [] e es h = absurd es
any_active-Succeeds r s (x ∷ rs) (y ∷ ss) e es h =
    ground (arith, same_active-Succeeds r s x y e es.0, any_active-Succeeds r s rs ss e es.1)

pub one_active-Succeeds :
    (rs ss : List Row)
    → AllSucceed rs ss
    → one_active_per_trade rs ≡ true
    → one_active_per_trade ss ≡ true
unfolding one_active_per_trade
one_active-Succeeds [] [] es d = refl
one_active-Succeeds [] (s ∷ ss) es d = absurd es
one_active-Succeeds (r ∷ rs) [] es d = absurd es
one_active-Succeeds (r ∷ rs) (s ∷ ss) es d =
    ground (arith, any_active-Succeeds r s rs ss es.0 es.1, one_active-Succeeds rs ss es.1)

-- The wall clock has not moved back behind any row.
abbrev pub NotBefore : ℕ → List Row → Type 0
NotBefore now = All (λ r. r.updated_at_unix_ms ≤ now)

keeps_room :
    (sha256 : List ℕ → ℕ) (room : ℕ) (r : Row)
    → RowValid sha256 (suc room) r
    → RowValid sha256 room r
keeps_room sha256 room r v = record {
  columns = v.columns;
  shape = v.shape;
  identity = v.identity;
  roomy = omega (arith, v.roomy);
  owned = v.owned;
  unfailed = v.unfailed;
  within = v.within;
}

pub keeps_rooms :
    (sha256 : List ℕ → ℕ) (room : ℕ) (rows : List Row)
    → All (RowValid sha256 (suc room)) rows
    → All (RowValid sha256 room) rows
keeps_rooms sha256 room [] v = tt
keeps_rooms sha256 room (r ∷ rows) v =
    (keeps_room sha256 room r v.0, keeps_rooms sha256 room rows v.1)

module _ (sha256 : List ℕ → ℕ) (room : ℕ) (p : Row → Bool) (f : Row → Row) where
  -- What one row must satisfy for `UPDATE … SET f WHERE p` to go through.
  pub record StatementFits (r : Row) : Type 0 where
    pub guarded : guard_update r (f r) ≡ true
    pub valid : RowValid sha256 room (f r)
    pub succeeds : Succeeds r (f r)

  -- Every row of the table that the condition takes fits.
  abbrev pub RowsFit : List Row → Type 0
  RowsFit = All (λ r. p r ≡ true → StatementFits r)

  fits_all :
      (rows : List Row)
      → All (RowValid sha256 (suc room)) rows
      → RowsFit rows
      → all (row_change_fits p f) rows ≡ true
  unfolding row_checks
  fits_all [] v fits = refl
  fits_all (r ∷ rows) v fits = elim (Bool-cases (p r)) [
    | inl hit ↦
        let fit = fits.0 hit in
        rw (hit, fit.valid.columns, fit.valid.shape, fit.guarded) (fits_all rows v.1 fits.1)
    | inr miss ↦ rw miss (fits_all rows v.1 fits.1)
  ]

  updated_valid :
      (rows : List Row)
      → All (RowValid sha256 (suc room)) rows
      → RowsFit rows
      → All (RowValid sha256 room) (update_where p f rows)
  updated_valid [] v fits = tt
  updated_valid (r ∷ rows) v fits = elim (Bool-cases (p r)) [
    | inl hit ↦ rw hit ((fits.0 hit).valid, updated_valid rows v.1 fits.1)
    | inr miss ↦ rw miss (keeps_room sha256 room r v.0, updated_valid rows v.1 fits.1)
  ]

  updated_succeeds : (rows : List Row) → RowsFit rows → AllSucceed rows (update_where p f rows)
  updated_succeeds [] fits = tt
  updated_succeeds (r ∷ rows) fits = elim (Bool-cases (p r)) [
    | inl hit ↦ rw hit ((fits.0 hit).succeeds, updated_succeeds rows fits.1)
    | inr miss ↦ rw miss (Succeeds-refl r, updated_succeeds rows fits.1)
  ]

  pub update_jobs-StatementFits :
      (db : Db)
      → DbValid sha256 (suc room) db
      → RowsFit db.jobs
      → let db' : Db = record db { jobs = update_where p f db.jobs } in
        (update_jobs p f db ≡ ok (count p db.jobs, db'))
        × DbValid sha256 room db'
        × AllSucceed db.jobs db'.jobs
  unfolding update_jobs
  update_jobs-StatementFits db v fits =
      let moved = updated_succeeds db.jobs fits in
      let index = one_active-Succeeds _ _ moved v.single in
      (
        rw (fits_all db.jobs v.rows fits, index),
        record {
          rows = updated_valid db.jobs v.rows fits;
          distinct = DistinctIds-Succeeds _ _ moved v.distinct;
          single = index;
        },
        moved,
      )

  pub RowsFit-of :
      (rows : List Row)
      → All (RowValid sha256 (suc room)) rows
      → ((r : Row) → RowValid sha256 (suc room) r → p r ≡ true → StatementFits r)
      → RowsFit rows
  RowsFit-of [] v fits = tt
  RowsFit-of (r ∷ rows) v fits = (fits r v.0, RowsFit-of rows v.1 fits)

  -- The same for rows that the wall clock has not left behind.
  pub RowsFit-of_NotBefore :
      (now : ℕ) (rows : List Row)
      → All (RowValid sha256 (suc room)) rows
      → NotBefore now rows
      → ((r : Row)
          → RowValid sha256 (suc room) r
          → p r ≡ true
          → r.updated_at_unix_ms ≤ now
          → StatementFits r)
      → RowsFit rows
  RowsFit-of_NotBefore now [] v late fits = tt
  RowsFit-of_NotBefore now (r ∷ rows) v late fits =
      (λ hit. fits r v.0 hit late.0, RowsFit-of_NotBefore now rows v.1 late.1 fits)
