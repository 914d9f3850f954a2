-- ===== src/Jobs/Backoff.antt =====
-- `retry_delay_upper_bound` and `RhiReconciliationJobPolicy::new` of src/reconciliation_job.rs.
use native.Mathlib.Nat.{pow-suc, pow-le-pow_right, le_refl}
use rhi.Jobs.Types.{
  JobPolicy, policy_new, JobErrorKind, max_active, invalid_input, max_lease_ms, max_renewal_ms,
  max_attempts_limit, max_initial_backoff_ms, max_backoff_ms, retry_delay_upper_bound,
}
use rhi.Base.{
  ℕ, ok, err, zero, suc, min, Result, ◌*◌, ◌≡◌, ◌≤◌, ◌⊎◌, ◌<◌, inl, inr, arith, ◌^◌, le_or_lt,
  max_u64, lt→ltb,
}

-- A policy in range, field by field.
pub record PolicyValid (p : JobPolicy) : Type 0 where
  pub capacity : (1 ≤ p.queue_capacity) × (p.queue_capacity ≤ max_active)
  pub duration : (1000 ≤ p.lease_duration_ms) × (p.lease_duration_ms ≤ max_lease_ms)
  pub renewal : (100 ≤ p.lease_renewal_ms) × (p.lease_renewal_ms ≤ max_renewal_ms)
  pub renewed_early : p.lease_renewal_ms < p.lease_duration_ms
  pub attempts : (1 ≤ p.max_attempts) × (p.max_attempts ≤ max_attempts_limit)
  pub initial : (1 ≤ p.initial_backoff_ms) × (p.initial_backoff_ms ≤ max_initial_backoff_ms)
  pub maximum : (1 ≤ p.maximum_backoff_ms) × (p.maximum_backoff_ms ≤ max_backoff_ms)
  pub ordered : p.initial_backoff_ms ≤ p.maximum_backoff_ms

-- The policy that `new` is asked for, from the policy itself.
abbrev pub policy_again : JobPolicy → Result JobErrorKind JobPolicy
policy_again p =
    policy_new p.queue_capacity p.lease_duration_ms p.lease_renewal_ms p.max_attempts
      p.initial_backoff_ms p.maximum_backoff_ms

policy_new-two : (p : JobPolicy) → (policy_again p ≡ ok p) ⊎ (policy_again p ≡ err invalid_input)
unfolding policy_new
policy_new-two p = ground arith

policy_new_sound : (p : JobPolicy) → policy_again p ≡ ok p → PolicyValid p
unfolding policy_new
policy_new_sound p h = record {
  capacity = ground arith;
  duration = ground arith;
  renewal = ground arith;
  renewed_early = ground arith;
  attempts = ground arith;
  initial = ground arith;
  maximum = ground arith;
  ordered = ground arith;
}

policy_new_complete : (p : JobPolicy) → PolicyValid p → policy_again p ≡ ok p
unfolding policy_new
policy_new_complete p v = ground arith

ok_not_err : (p : JobPolicy) → policy_again p ≡ ok p → policy_again p ≡ err invalid_input → ⊥
ok_not_err p a b = cc

-- `new` accepts exactly the policies in range, as they are, and else reports invalid input.
pub policy_new-PolicyValid :
    (p : JobPolicy)
    → ((policy_again p ≡ ok p) × PolicyValid p)
      ⊎ ((policy_again p ≡ err invalid_input) × ¬ PolicyValid p)
policy_new-PolicyValid p = elim (policy_new-two p) [
  | inl accepted ↦ inl (accepted, policy_new_sound p accepted)
  | inr refused ↦ inr (refused, λ v. ok_not_err p (policy_new_complete p v) refused)
]

-- The bound of the delay after `failures` failures: the initial delay, doubled for each, and cut at
-- the maximum.
abbrev pub doubled : ℕ → ℕ → ℕ → ℕ
doubled initial maximum zero = min initial maximum
doubled initial maximum (suc n) = min (2 * doubled initial maximum n) maximum

doubled-pow : (i m n : ℕ) → doubled i m n ≡ min (i * 2 ^ n) m
doubled-pow i m zero = omega arith
doubled-pow i m (suc n) = rw pow-suc (omega (arith, doubled-pow i m n))

saturated : (x m : ℕ) → m ≤ max_backoff_ms → min (min x max_u64) m ≡ min x m
saturated x m h = omega arith

product_large : (i x : ℕ) → 1 ≤ i → 2 ^ 63 ≤ x → 2 ^ 63 ≤ i * x
product_large i x h k = grind arith

both_cut :
    (m x y : ℕ) → m ≤ max_backoff_ms → 2 ^ 63 ≤ x → 2 ^ 63 ≤ y → min (min x max_u64) m ≡ min y m
both_cut m x y h a b = omega arith

-- For a policy in range, the saturating retry bound after a number of failures is the initial
-- delay doubled for each of them, every step cut at the maximum.
pub retry_delay_upper_bound-doubled :
    (p : JobPolicy) (failures : ℕ)
    → PolicyValid p
    → retry_delay_upper_bound p failures
      ≡ doubled p.initial_backoff_ms p.maximum_backoff_ms failures
unfolding retry_delay_upper_bound
retry_delay_upper_bound-doubled p failures v = elim (le_or_lt failures 63) [
  | inl few ↦
      let all : min failures 63 ≡ failures = omega arith in
      rw (all, lt→ltb failures 64 (omega arith), doubled-pow p.initial_backoff_ms)
        (saturated (p.initial_backoff_ms * 2 ^ failures) p.maximum_backoff_ms v.maximum.1)
  | inr many ↦
      let capped : min failures 63 ≡ 63 = omega arith in
      rw (capped, doubled-pow p.initial_backoff_ms)
        (both_cut p.maximum_backoff_ms (p.initial_backoff_ms * 2 ^ 63)
          (p.initial_backoff_ms * 2 ^ failures) v.maximum.1
          (product_large p.initial_backoff_ms (2 ^ 63) v.initial.0 (le_refl (2 ^ 63)))
          (product_large p.initial_backoff_ms (2 ^ failures) v.initial.0
            (pow-le-pow_right {n = 2} (omega arith) {i = 63} {j = failures} (omega arith))))
]
