-- ===== src/Jobs/Choice.antt =====
-- What `ORDER BY … LIMIT 1` picks: a row that meets the condition, with none before it.
use mathlib.Core.Option.{some-injective}
use rhi.Jobs.Target.{row_of}
use rhi.Jobs.Valid.{DistinctIds, RowValid}
use rhi.Jobs.Store.{before_by}
use rhi.Jobs.Schema.{Row}
use rhi.Base.{
  ℕ, refl, [], some, true, false, inl, inr, ◌∷◌, Bool, List, All, any, filter, ◌≡◌, Bool-cases,
  arith, ◌==◌, ◌⊎◌, ==_self, subst, none, ==_iff, Option, least, better,
}

abbrev pub Among : Row → List Row → Type 0
Among x [] = ⊥
Among x (y ∷ ys) = (y ≡ x) ⊎ Among x ys

Among-filter-cons :
    (p : Row → Bool) (x y : Row) (ys : List Row)
    → p y ≡ true
    → ((Among x (filter p ys)) → Among x ys × (p x ≡ true))
    → (y ≡ x) ⊎ Among x (filter p ys)
    → Among x (y ∷ ys) × (p x ≡ true)
Among-filter-cons p x y ys e rest (inl same) = (inl same, subst (λ z. p z ≡ true) same e)
Among-filter-cons p x y ys e rest (inr later) = (inr (rest later).0, (rest later).1)

pub Among-filter :
    (p : Row → Bool) (x : Row) (xs : List Row) → Among x (filter p xs) → Among x xs × (p x ≡ true)
Among-filter p x [] h = absurd h
Among-filter p x (y ∷ ys) h = elim (Bool-cases (p y)) [
  | inl holds_y ↦ Among-filter-cons p x y ys holds_y (Among-filter p x ys) (rw holds_y at h)
  | inr fails_y ↦ let below = Among-filter p x ys (rw fails_y at h) in (inr below.0, below.1)
]

pub any_of_row_of :
    (id : ℕ) (rows : List Row) {r : Row}
    → row_of id rows ≡ some r
    → any (λ s. s.job_id == id) rows ≡ true
any_of_row_of id [] h = cc
any_of_row_of id (x ∷ rows) h = elim (Bool-cases (x.job_id == id)) [
  | inl hit ↦ rw hit
  | inr miss ↦ rw miss (any_of_row_of id rows (rw miss at h))
]

Among-row_of-cons :
    (r y : Row) (ys : List Row)
    → any (λ s. s.job_id == y.job_id) ys ≡ false
    → (Among r ys → row_of r.job_id ys ≡ some r)
    → (y ≡ r) ⊎ Among r ys
    → row_of r.job_id (y ∷ ys) ≡ some r
Among-row_of-cons r y ys fresh rest (inl same) = rw (same, ==_self r.job_id)
Among-row_of-cons r y ys fresh rest (inr later) = elim (Bool-cases (y.job_id == r.job_id)) [
  | inl hit ↦
      let known : any (λ s. s.job_id == r.job_id) ys ≡ true =
        any_of_row_of r.job_id ys (rest later) in
      let e : y.job_id ≡ r.job_id = (==_iff y.job_id r.job_id).0 hit in
      let unknown : any (λ s. s.job_id == r.job_id) ys ≡ false =
        subst (λ id. any (λ s. s.job_id == id) ys ≡ false) e fresh in
      cc
  | inr miss ↦ rw miss (rest later)
]

pub Among-row_of :
    (r : Row) (rows : List Row) → DistinctIds rows → Among r rows → row_of r.job_id rows ≡ some r
Among-row_of r [] d h = absurd h
Among-row_of r (y ∷ ys) d h = Among-row_of-cons r y ys d.0 (Among-row_of r ys d.1) h

pub Among-RowValid :
    (sha256 : List ℕ → ℕ) (k : ℕ) (rows : List Row) (r : Row)
    → All (RowValid sha256 k) rows
    → Among r rows
    → RowValid sha256 k r
Among-RowValid sha256 k [] r v h = absurd h
Among-RowValid sha256 k (x ∷ rows) r v (inl same) = subst (RowValid sha256 k) same v.0
Among-RowValid sha256 k (x ∷ rows) r v (inr later) = Among-RowValid sha256 k rows r v.1 later

module _ (key : Row → ℕ) where
  -- No row of the list comes before the chosen one.
  abbrev pub NoneBefore : Row → List Row → Type 0
  NoneBefore x = All (λ y. before_by key y x ≡ false)

  NoneBefore-trans :
      (x y : Row) (rows : List Row)
      → before_by key x y ≡ true
      → NoneBefore y rows
      → NoneBefore x rows
  unfolding before_by
  NoneBefore-trans x y [] h a = tt
  NoneBefore-trans x y (z ∷ rows) h a = (ground (arith, a.0), NoneBefore-trans x y rows h a.1)

  pub NoneBefore-self : (x : Row) → before_by key x x ≡ false
  unfolding before_by
  NoneBefore-self x = ground arith

  asymmetric : (x y : Row) → before_by key x y ≡ true → before_by key y x ≡ false
  unfolding before_by
  asymmetric x y h = ground arith

  -- If `y` is not before `x`, what comes before no entry of the rest `y` heads comes not before `x`.
  NoneBefore-total :
      (x y : Row) (rows : List Row)
      → before_by key y x ≡ false
      → NoneBefore y rows
      → NoneBefore x rows
  unfolding before_by
  NoneBefore-total x y [] h a = tt
  NoneBefore-total x y (z ∷ rows) h a = (ground (arith, a.0), NoneBefore-total x y rows h a.1)

  least-cases :
      (x : Row) (rows : List Row) (chosen : Option Row)
      → least (before_by key) rows ≡ chosen
      → ((y : Row) → chosen ≡ some y → Among y rows × NoneBefore y rows)
      → (chosen ≡ none → rows ≡ [])
      → let b = better (before_by key) x chosen in Among b (x ∷ rows) × NoneBefore b (x ∷ rows)
  least-cases x rows none e rest empty = (inl refl, (NoneBefore-self x, rw (empty refl) tt))
  least-cases x rows (some y) e rest empty = elim (Bool-cases (before_by key y x)) [
    | inl first ↦
        let chosen : y ≡ better (before_by key) x (some y) = rw first in
        subst Best chosen (inr (rest y refl).0, (asymmetric y x first, (rest y refl).1))
    | inr second ↦
        let chosen : x ≡ better (before_by key) x (some y) = rw second in
        subst Best chosen
          (inl refl, (NoneBefore-self x, NoneBefore-total x y rows second (rest y refl).1))
  ]
    where
      Best : Row → Type 0
      Best b = Among b (x ∷ rows) × NoneBefore b (x ∷ rows)

  pub least-none : (rows : List Row) → least (before_by key) rows ≡ none → rows ≡ []
  least-none [] e = refl
  least-none (x ∷ rows) e = cc

  pub least-first :
      (rows : List Row) (y : Row)
      → least (before_by key) rows ≡ some y
      → Among y rows × NoneBefore y rows
  least-first [] y e = cc
  least-first (x ∷ rows) y e =
      subst (λ z. Among z (x ∷ rows) × NoneBefore z (x ∷ rows)) (some-injective _ _ e)
        (least-cases x rows (least (before_by key) rows) refl (least-first rows) (least-none rows))
