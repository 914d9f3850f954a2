-- ===== src/Jitter/Tests.antt =====
-- A full-jitter sample of src/runtime_adapters.rs from a source that always gives one number.
use rhi.Jitter.{
  sample_full_jitter, max_entropy_draws, scaled, FirstTaken, entropy_unavailable, NoneTaken,
  sample_full_jitter-cases,
}
use mathlib.Core.Option.{some-injective}
use rhi.Base.{◌≡◌, ◌^◌, ◌≤◌, ◌<◌, ◌⊎◌, ℕ, refl, some, ok, err, Option, ◌<◌, ◌≡◌, arith}

abbrev constant : ℕ → Option ℕ
constant i = some 9223372036854775809

constant-small : (i x : ℕ) → constant i ≡ some x → x < 2 ^ 64
constant-small i x e = omega (arith, some-injective _ _ e)

samples_half : sample_full_jitter 999 constant ≡ ok 500
unfolding sample_full_jitter
samples_half = refl

sample_full_jitter-cases_example :
    ((i : ℕ) × (x : ℕ) × (i < max_entropy_draws)
      × (sample_full_jitter 999 constant ≡ ok (scaled 1000 x))
      × (scaled 1000 x ≤ 999)
      × FirstTaken 1000 constant i x)
    ⊎ ((sample_full_jitter 999 constant ≡ err entropy_unavailable)
        × NoneTaken 1000 constant max_entropy_draws)
sample_full_jitter-cases_example = sample_full_jitter-cases 999 constant constant-small
