-- ===== src/Outbox/Backoff.antt =====
-- `retry_upper_bound` of src/publication_execution.rs.
use rhi.Jobs.Types.{saturating_mul}
use rhi.Outbox.Types.{OutboxRecord}
use rhi.Outbox.Decisions.{retry_upper_bound, doubling}
use rhi.Jobs.Backoff.{doubled}
use rhi.Base.{ℕ, refl, zero, suc, ◌≤◌, max_u64, min, ◌*◌, ◌≡◌, arith, ◌∙◌, ◌-◌}

first_doubled : (b m n : ℕ) → doubled (min (2 * b) m) m n ≡ doubled b m (suc n)
first_doubled b m zero = omega arith
first_doubled b m (suc n) = rw (first_doubled b m n)

saturated_step : (b m : ℕ) → m ≤ max_u64 → min (saturating_mul b 2) m ≡ min (2 * b) m
saturated_step b m h = omega arith

doubling-doubled : (n b m : ℕ) → m ≤ max_u64 → min (doubling n b m) m ≡ doubled b m n
doubling-doubled zero b m h = refl
doubling-doubled (suc n) b m h =
    rw (saturated_step b m h) (doubling-doubled n (min (2 * b) m) m h ∙ first_doubled b m n)

-- With a maximum that fits 64 bits, after attempt `n + 1` the loop's bound is the initial delay
-- doubled `n` times, every step cut at the maximum: the same bound as that of a reconciliation job
-- after `n` failures.
pub retry_upper_bound-doubled :
    (outbox : OutboxRecord) (n : ℕ)
    → outbox.maximum_backoff_ms ≤ max_u64
    → retry_upper_bound outbox (suc n)
      ≡ doubled outbox.initial_backoff_ms outbox.maximum_backoff_ms n
unfolding retry_upper_bound
retry_upper_bound-doubled outbox n h =
    let before : suc n - 1 ≡ n = omega arith in
    rw before (doubling-doubled n outbox.initial_backoff_ms outbox.maximum_backoff_ms h)
