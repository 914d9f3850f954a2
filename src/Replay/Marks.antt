-- ===== src/Replay/Marks.antt =====
-- The cursor and the time that the loop of `canonicalize` in src/reconciliation_replay.rs carries along.
use rhi.Replay.Canonical.{compare_cursor, earlier_observation, is_lt, kept, later_cursor, cursor_of}
use rhi.Replay.Types.{CanonicalReplay, Cursor, ReplayFact}
use rhi.Base.{
  none, some, false, inl, inr, refl, Option, ℕ, ◌≤◌, Contains, arith, ◌≡◌, ◌⊎◌, Bool-cases,
  Contains-pushed, ltb, subst, sym, pushed_Contains, ◌∙◌, Contains-push,
}
use mathlib.Core.Option.{some-injective}

-- The candidate for the cursor is the greatest of the facts kept, the first observation the least.
pub record Marks (c : CanonicalReplay) : Type 0 where
  pub cursor :
      (f : ReplayFact)
      → Contains c.facts f
      → (k : Cursor) × (c.cursor_candidate ≡ some k)
        × (is_lt (compare_cursor k (cursor_of f)) ≡ false)
  pub cursor_from :
      (k : Cursor)
      → c.cursor_candidate ≡ some k
      → (f : ReplayFact) × Contains c.facts f × (cursor_of f ≡ k)
  pub first :
      (f : ReplayFact)
      → Contains c.facts f
      → (t : ℕ) × (c.first_observed_at ≡ some t) × (t ≤ f.observed_at)
  pub first_from :
      (t : ℕ)
      → c.first_observed_at ≡ some t
      → (f : ReplayFact) × Contains c.facts f × (f.observed_at ≡ t)

later_cursor-new :
    (o : Option Cursor) (k : Cursor) → is_lt (compare_cursor (later_cursor o k) k) ≡ false
unfolding compare_cursor
later_cursor-new none k = ground arith
later_cursor-new (some current) k = ground arith

later_cursor-old :
    (current k j : Cursor)
    → is_lt (compare_cursor current j) ≡ false
    → is_lt (compare_cursor (later_cursor (some current) k) j) ≡ false
unfolding compare_cursor
later_cursor-old current k j h = ground arith

later_cursor-one :
    (o : Option Cursor) (k : Cursor) → (later_cursor o k ≡ k) ⊎ (o ≡ some (later_cursor o k))
later_cursor-one none k = inl refl
later_cursor-one (some current) k = elim (Bool-cases (is_lt (compare_cursor current k))) [
  | inl less ↦ inl (rw less refl)
  | inr more ↦ inr (rw more refl)
]

earlier_observation-new : (o : Option ℕ) (t : ℕ) → earlier_observation o t ≤ t
earlier_observation-new none t = omega arith
earlier_observation-new (some current) t = ground arith

earlier_observation-old : (current t u : ℕ) → current ≤ u → earlier_observation (some current) t ≤ u
earlier_observation-old current t u h = ground arith

earlier_observation-one :
    (o : Option ℕ) (t : ℕ) → (earlier_observation o t ≡ t) ⊎ (o ≡ some (earlier_observation o t))
earlier_observation-one none t = inl refl
earlier_observation-one (some current) t = elim (Bool-cases (ltb t current)) [
  | inl less ↦ inl (rw less refl)
  | inr more ↦ inr (rw more refl)
]

pub Marks-push :
    (c : CanonicalReplay) (x : ReplayFact) (bytes : ℕ) → Marks c → Marks (kept x bytes c)
Marks-push c x bytes m = record {
  cursor = λ f in_f. (
    later_cursor c.cursor_candidate (cursor_of x),
    refl,
    elim (Contains-pushed c.facts x f in_f) [
      | inl now ↦
          subst
            (λ z.
              is_lt (compare_cursor (later_cursor c.cursor_candidate (cursor_of x)) (cursor_of z))
              ≡ false)
            now (later_cursor-new c.cursor_candidate (cursor_of x))
      | inr before ↦
          let (k, at, less) = m.cursor f before in
          subst (λ o. is_lt (compare_cursor (later_cursor o (cursor_of x)) (cursor_of f)) ≡ false)
            (sym at) (later_cursor-old k (cursor_of x) (cursor_of f) less)
    ],
  );
  cursor_from = λ k at.
      let is_k = some-injective _ _ at in
      elim (later_cursor-one c.cursor_candidate (cursor_of x)) [
        | inl new ↦ (x, pushed_Contains c.facts x, sym new ∙ is_k)
        | inr old ↦
            let (f, in_f, e) = m.cursor_from k (old ∙ at) in (f, Contains-push c.facts x f in_f, e)
      ];
  first = λ f in_f. (
    earlier_observation c.first_observed_at x.observed_at,
    refl,
    elim (Contains-pushed c.facts x f in_f) [
      | inl now ↦
          subst
            (λ (z : ReplayFact).
              earlier_observation c.first_observed_at x.observed_at ≤ z.observed_at)
            now (earlier_observation-new c.first_observed_at x.observed_at)
      | inr before ↦
          let (t, at, less) = m.first f before in
          subst (λ o. earlier_observation o x.observed_at ≤ f.observed_at) (sym at)
            (earlier_observation-old t x.observed_at f.observed_at less)
    ],
  );
  first_from = λ t at.
      let is_t = some-injective _ _ at in
      elim (earlier_observation-one c.first_observed_at x.observed_at) [
        | inl new ↦ (x, pushed_Contains c.facts x, sym new ∙ is_t)
        | inr old ↦
            let (f, in_f, e) = m.first_from t (old ∙ at) in (f, Contains-push c.facts x f in_f, e)
      ];
}
