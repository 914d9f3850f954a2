-- ===== src/Jobs/History.antt =====
-- How the tables of reconciliation jobs move on: no job is lost, and its revision never falls.
use rhi.Jobs.Target.{row_of}
use rhi.Jobs.Tables.{AllSucceed, Succeeds, Succeeds-refl}
use rhi.Jobs.Store.{Db}
use rhi.Jobs.Schema.{Row}
use rhi.Base.{
  ℕ, [], some, true, false, inl, inr, ◌∷◌, List, ◌∙◌, ◌≡◌, Bool-cases, arith, ◌==◌, ==_iff, subst,
  sym,
}

pub Succeeds-trans : (r s t : Row) → Succeeds r s → Succeeds s t → Succeeds r t
Succeeds-trans r s t a b = record {
  same_id = b.same_id ∙ a.same_id;
  same_trade = b.same_trade ∙ a.same_trade;
  no_new_activity = λ h. a.no_new_activity (b.no_new_activity h);
  advances = omega arith;
  attempts = omega arith;
  same_limit = b.same_limit ∙ a.same_limit;
}

abbrev pub Extends : Db → Db → Type 0
Extends db db' =
    (id : ℕ) (r : Row)
    → row_of id db.jobs ≡ some r
    → (s : Row) × (row_of id db'.jobs ≡ some s) × Succeeds r s

pub Extends-refl : (db : Db) → Extends db db
Extends-refl db id r found = (r, found, Succeeds-refl r)

pub Extends-trans : (a b c : Db) → Extends a b → Extends b c → Extends a c
Extends-trans a b c first second id r found =
    let (s, here, near) = first id r found in
    let (t, there, far) = second id s here in (t, there, Succeeds-trans r s t near far)

row_of-Succeeds :
    (id : ℕ) (rs ss : List Row) (r : Row)
    → AllSucceed rs ss
    → row_of id rs ≡ some r
    → (s : Row) × (row_of id ss ≡ some s) × Succeeds r s
row_of-Succeeds id [] ss r a h = cc
row_of-Succeeds id (x ∷ rs) [] r a h = absurd a
row_of-Succeeds id (x ∷ rs) (y ∷ ss) r a h = elim (Bool-cases (x.job_id == id)) [
  | inl hit ↦
      let e : x ≡ r = ground arith in
      let there : (y.job_id == id) ≡ true =
        (==_iff _ _).1 (a.0.same_id ∙ (==_iff x.job_id id).0 hit) in
      (y, rw there, subst (λ z. Succeeds z y) e a.0)
  | inr miss ↦
      let absent : (y.job_id == id) ≡ false =
        subst (λ k. (k == id) ≡ false) (sym a.0.same_id) miss in
      let (s, found, near) = row_of-Succeeds id rs ss r a.1 (rw miss at h) in
      (s, rw absent found, near)
]

pub AllSucceed-Extends : (db db' : Db) → AllSucceed db.jobs db'.jobs → Extends db db'
AllSucceed-Extends db db' a id r found = row_of-Succeeds id db.jobs db'.jobs r a found
