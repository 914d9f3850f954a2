-- ===== src/Jitter.antt =====
-- `sample_full_jitter` of src/runtime_adapters.rs. The entropy source is a parameter: its draws in
-- order, each a number of eight bytes, or nothing where the source fails.
mod Tests
use rhi.Base.{
  ℕ, refl, none, some, true, false, inl, inr, ok, err, zero, suc, Bool, Option, Result, ◌*◌, ◌<◌,
  ◌^◌, if◌then◌else◌, leb, ok_or, ◌+◌, ◌-◌, ◌/◌, ◌≡◌, ◌≤◌, arith, keep, le_or_lt, ltb, ◌%◌, ◌⊎◌,
  Option-cases, max_i64, subst, Bool-cases, checked,
}

pub data AdapterError : Type 0 where
  invalid_jitter_bound entropy_unavailable wall_clock_unavailable : AdapterError

abbrev pub jitter_max_milliseconds : ℕ
jitter_max_milliseconds = 3600000

-- RHI_RUNTIME_JITTER_MAX_ENTROPY_DRAWS.
abbrev pub max_entropy_draws : ℕ
max_entropy_draws = 16

-- `RhiJitterBoundMilliseconds::new`.
unfoldable pub jitter_bound_new : ℕ → Result AdapterError ℕ
jitter_bound_new milliseconds =
    if ltb jitter_max_milliseconds milliseconds then err invalid_jitter_bound else ok milliseconds

-- `now_utc_milliseconds`, from what the clock says in seconds.
unfoldable pub now_utc_milliseconds : Option ℕ → Result AdapterError ℕ
now_utc_milliseconds none = err wall_clock_unavailable
now_utc_milliseconds (some seconds) =
    ok_or (keep (λ t. leb t max_i64) (checked (seconds * 1000))) wall_clock_unavailable

-- `range.wrapping_neg() % range`.
abbrev pub rejection_threshold : ℕ → ℕ
rejection_threshold range = (2 ^ 64 - range) % 2 ^ 64 % range

abbrev pub is_taken : ℕ → ℕ → Bool
is_taken range x = leb (rejection_threshold range) (x * range % 2 ^ 64)

abbrev pub scaled : ℕ → ℕ → ℕ
scaled range x = x * range / 2 ^ 64

-- One draw: the source fails, the number is taken, or the next draw is made.
abbrev draw : ℕ → Option ℕ → Result AdapterError ℕ → Result AdapterError ℕ
draw range none rest = err entropy_unavailable
draw range (some x) rest = if is_taken range x then ok (scaled range x) else rest

abbrev sample : ℕ → ℕ → ℕ → (ℕ → Option ℕ) → Result AdapterError ℕ
sample range zero index entropy = err entropy_unavailable
sample range (suc left) index entropy =
    draw range (entropy index) (sample range left (suc index) entropy)

unfoldable pub sample_full_jitter : ℕ → (ℕ → Option ℕ) → Result AdapterError ℕ
sample_full_jitter maximum entropy = sample (maximum + 1) max_entropy_draws 0 entropy

-- The number that the draw gives is the first that is taken, and every one before it was drawn.
abbrev pub FirstTaken : ℕ → (ℕ → Option ℕ) → ℕ → ℕ → Type 0
FirstTaken range entropy index x =
    (entropy index ≡ some x)
    × (is_taken range x ≡ true)
    × ((j : ℕ) → j < index → (y : ℕ) × (entropy j ≡ some y) × (is_taken range y ≡ false))

-- The draw fails, or every number that may be drawn is passed over.
abbrev pub NoneTaken : ℕ → (ℕ → Option ℕ) → ℕ → Type 0
NoneTaken range entropy limit =
    (k : ℕ) × (k ≤ limit)
    × ((j : ℕ) → j < k → (y : ℕ) × (entropy j ≡ some y) × (is_taken range y ≡ false))
    × ((k ≡ limit) ⊎ (entropy k ≡ none))

scaled-lt : (range x : ℕ) → x < 2 ^ 64 → 1 ≤ range → scaled range x < range
scaled-lt range x small pos =
    let below : x * range < 2 ^ 64 * range = grind arith in omega (arith, below)

module _ (range : ℕ) (entropy : ℕ → Option ℕ) where
  abbrev Passed : ℕ → Type 0
  Passed index = (j : ℕ) → j < index → (y : ℕ) × (entropy j ≡ some y) × (is_taken range y ≡ false)

  Passed-suc :
      (index x : ℕ)
      → Passed index
      → entropy index ≡ some x
      → is_taken range x ≡ false
      → Passed (suc index)
  Passed-suc index x before at_x miss j less = elim (le_or_lt index j) [
    | inr sooner ↦ before j sooner
    | inl later ↦
        let here : index ≡ j = omega arith in (x, subst (λ k. entropy k ≡ some x) here at_x, miss)
  ]

  sample-cases :
      (left index : ℕ)
      → Passed index
      → ((i : ℕ) × (x : ℕ) × (i < index + left)
          × (sample range left index entropy ≡ ok (scaled range x))
          × FirstTaken range entropy i x)
        ⊎ ((sample range left index entropy ≡ err entropy_unavailable)
            × NoneTaken range entropy (index + left))
  sample-cases zero index before = inr (refl, (index, omega arith, before, inl (omega arith)))
  sample-cases (suc left) index before = elim (Option-cases (entropy index)) [
    | inl failed ↦ inr (rw failed refl, (index, omega arith, before, inr failed))
    | inr (x, at_x) ↦ elim (Bool-cases (is_taken range x)) [
      | inl hit ↦ inl (index, x, omega arith, rw (at_x, hit) refl, (at_x, hit, before))
      | inr miss ↦
          let shift : suc index + left ≡ index + suc left = omega arith in
          elim (sample-cases left (suc index) (Passed-suc index x before at_x miss)) [
            | inl (i, y, less, e, first) ↦ inl (i, y, omega arith, rw (at_x, miss) e, first)
            | inr (e, rejected) ↦
                inr (rw (at_x, miss) e, subst (NoneTaken range entropy) shift rejected)
          ]
    ]
  ]

-- From draws of eight bytes, a sample is the first of sixteen draws that is taken, scaled, and is
-- never above the maximum; or there is no sample, since the source fails before a draw is taken or
-- none of the sixteen is taken.
pub sample_full_jitter-cases :
    (maximum : ℕ) (entropy : ℕ → Option ℕ)
    → ((i x : ℕ) → entropy i ≡ some x → x < 2 ^ 64)
    → ((i : ℕ) × (x : ℕ) × (i < max_entropy_draws)
        × (sample_full_jitter maximum entropy ≡ ok (scaled (maximum + 1) x))
        × (scaled (maximum + 1) x ≤ maximum)
        × FirstTaken (maximum + 1) entropy i x)
      ⊎ ((sample_full_jitter maximum entropy ≡ err entropy_unavailable)
          × NoneTaken (maximum + 1) entropy max_entropy_draws)
unfolding sample_full_jitter
sample_full_jitter-cases maximum entropy small =
    elim (sample-cases (maximum + 1) entropy max_entropy_draws 0 (λ j less. absurd (omega arith))) [
      | inl (i, x, less, e, first) ↦
          let below = scaled-lt (maximum + 1) x (small i x first.0) (omega arith) in
          inl (i, x, less, e, omega (arith, below), first)
      | inr failed ↦ inr failed
    ]
