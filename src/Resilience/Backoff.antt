-- ===== src/Resilience/Backoff.antt =====
-- internal/resilience/retry.go: CalculateBackoff and CalculateBackoffNoJitter. The base delay is
-- not negative; `random n` stands for the call rand.Int64N(n) of math/rand/v2, below n.
use llm_mux_fork.Prelude.{
  ℕ, zero, suc, ◌-◌, ◌*◌, ◌^◌, ◌<◌, ◌≤◌, ◌≡◌, refl, min, if◌then◌else◌, pos, negsuc, pos_part,
  ltb_ℤ, wrap64, arith,
}
use llm_mux_fork.Clock.{Duration}

unfoldable pub calculate_backoff_no_jitter : ℕ → ℕ → Duration → Duration
calculate_backoff_no_jitter attempt base_delay max_delay =
    let delay = wrap64 (base_delay * 2 ^ attempt) in
    if ltb_ℤ max_delay delay then max_delay else delay

-- The wait below a delay: random(0, delay), or none.
unfoldable pub full_jitter : (ℕ → ℕ) → Duration → Duration
full_jitter random (pos zero) = pos 0
full_jitter random (pos (suc n)) = pos (random (suc n))
full_jitter random (negsuc n) = pos 0

unfoldable pub calculate_backoff : (ℕ → ℕ) → ℕ → ℕ → Duration → Duration
unfolding full_jitter
calculate_backoff random attempt base_delay max_delay =
    let delay = wrap64 (base_delay * 2 ^ attempt) in
    full_jitter random (if ltb_ℤ max_delay delay then max_delay else delay)

abbrev Within : ℕ → Duration → Type 0
Within max_delay d = (wait : ℕ) × (d ≡ pos wait) × (wait ≤ max_delay - 1)

module _ (random : ℕ → ℕ) (below : (n : ℕ) → 0 < n → random n < n) (max_delay : ℕ) where
  full_jitter-Within :
      (d : Duration) → pos_part d ≤ max_delay → Within max_delay (full_jitter random d)
  unfolding full_jitter
  full_jitter-Within (pos zero) h = (0, refl, omega arith)
  full_jitter-Within (pos (suc n)) h = (random (suc n), refl, omega (arith, below (suc n)))
  full_jitter-Within (negsuc n) h = (0, refl, omega arith)

  capped :
      (d : Duration) → pos_part (if ltb_ℤ (pos max_delay) d then pos max_delay else d) ≤ max_delay
  capped (pos n) = ground arith
  capped (negsuc n) = ground arith

  -- Full jitter: where the random number below n is less than n, the wait is, whatever the attempt and
  -- the overflow of the product included, not negative, and it is below the greatest delay where that
  -- is positive, and 0 where it is 0.
  pub calculate_backoff_bounds :
      (attempt base_delay : ℕ)
      → (wait : ℕ) × (calculate_backoff random attempt base_delay (pos max_delay) ≡ pos wait)
        × (wait ≤ max_delay - 1)
  unfolding calculate_backoff
  calculate_backoff_bounds attempt base_delay = full_jitter-Within _ (capped _)

-- While the product fits an int64, the delay doubles with each attempt up to the greatest one.
pub calculate_backoff_no_jitter_lem :
    (attempt base_delay max_delay : ℕ)
    → base_delay * 2 ^ attempt < 2 ^ 63
    → calculate_backoff_no_jitter attempt base_delay (pos max_delay)
      ≡ pos (min (base_delay * 2 ^ attempt) max_delay)
unfolding calculate_backoff_no_jitter
calculate_backoff_no_jitter_lem attempt base_delay max_delay fits = ground arith
