-- ===== src/Resilience/Budget.antt =====
-- internal/resilience/retry.go: RetryBudget, a bounded number of retries in flight. The two
-- operations are loops that load the counter and compare-and-swap it, so that they take effect at
-- one moment; the functions here are that effect, and `Threads` has the loops step by step.
use llm_mux_fork.Prelude.{
  ℕ, ◌+◌, ◌-◌, ◌≤◌, ◌<◌, ◌≡◌, ◌==◌, leb, if◌then◌else◌, Bool, true, false, ℤ, pos, negsuc, List, [],
  ◌∷◌, arith,
}

pub record RetryBudget : Type 0 where
  pub capacity : ℕ
  pub max_capacity : ℕ

-- The argument is an int64; 50 where it is not positive.
unfoldable pub new_retry_budget : ℤ → RetryBudget
new_retry_budget (pos n) =
    let m = if n == 0 then 50 else n in record { capacity = m; max_capacity = m }
new_retry_budget (negsuc n) = record { capacity = 50; max_capacity = 50 }

unfoldable pub try_acquire : RetryBudget → RetryBudget × Bool
try_acquire rb =
    if leb rb.capacity 0 then (rb, false) else (record rb { capacity = rb.capacity - 1 }, true)

unfoldable pub release : RetryBudget → RetryBudget
release rb =
    if leb rb.max_capacity rb.capacity then rb else record rb { capacity = rb.capacity + 1 }

pub record IsValid (rb : RetryBudget) : Type 0 where
  pub positive : 0 < rb.max_capacity
  pub bounded : rb.capacity ≤ rb.max_capacity

pub data Call : Type 0 where
  acquires releases : Call

unfoldable pub step : RetryBudget → Call → RetryBudget
unfolding try_acquire release
step rb acquires = (try_acquire rb).0
step rb releases = release rb

unfoldable pub run : RetryBudget → List Call → RetryBudget
unfolding step
run rb [] = rb
run rb (c ∷ cs) = run (step rb c) cs

run-IsValid : (rb : RetryBudget) (cs : List Call) → IsValid rb → IsValid (run rb cs)
unfolding run
run-IsValid rb [] v = v
run-IsValid rb (acquires ∷ cs) v = run-IsValid (step rb acquires) cs (ground arith)
run-IsValid rb (releases ∷ cs) v = run-IsValid (step rb releases) cs (ground arith)

new_retry_budget-IsValid : (n : ℤ) → IsValid (new_retry_budget n)
unfolding new_retry_budget
new_retry_budget-IsValid n = ground arith

-- After any calls, in any order, from any requested capacity, the counter is between 0 and the
-- positive maximum.
pub run-new_retry_budget : (n : ℤ) (cs : List Call) → IsValid (run (new_retry_budget n) cs)
run-new_retry_budget n cs = run-IsValid _ cs (new_retry_budget-IsValid n)

-- A retry that was granted and then released leaves the budget as it was.
pub release-try_acquire :
    (rb : RetryBudget) → IsValid rb → (try_acquire rb).1 ≡ true → release (try_acquire rb).0 ≡ rb
unfolding try_acquire release
release-try_acquire rb v h = ground arith
