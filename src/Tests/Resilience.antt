-- ===== src/Tests/Resilience.antt =====
-- Concrete calls for internal/resilience/retry.go and internal/provider/retry.go.
use llm_mux_fork.Prelude.{ℕ, ◌+◌, ◌-◌, ◌≤◌, ◌<◌, ◌≡◌, refl, true, [], ◌∷◌, arith}
use llm_mux_fork.Resilience.Budget.{RetryBudget, try_acquire}
use llm_mux_fork.Resilience.Threads.{
  idle, holding, load_acquire, acquire_wins, load_release, release_wins, System, move, Reach, here,
  next, total_held, fresh, retries_in_flight,
}

last : ℕ → ℕ
last n = n - 1

last_below : (n : ℕ) → 0 < n → last n < n
unfolding last
last_below n h = omega (arith, h)

abbrev budget : RetryBudget
budget = record { capacity = 3; max_capacity = 5 }

granted : (try_acquire budget).1 ≡ true
unfolding try_acquire
granted = refl

abbrev held_system : System
held_system = record {
  budget = record { capacity = 1; max_capacity = 2 };
  threads = idle ∷ holding ∷ [];
}

held_reached : Reach (fresh 2 (idle ∷ idle ∷ [])) held_system
held_reached =
    next (next here (move (idle ∷ []) [] refl (load_acquire (omega arith))))
      (move (idle ∷ []) [] refl (acquire_wins refl))

retries_in_flight_example :
    (held_system.budget.capacity + total_held held_system.threads ≡ 2)
    × (total_held held_system.threads ≤ 2)
retries_in_flight_example =
    retries_in_flight 2 (idle ∷ idle ∷ []) held_system (refl, (refl, tt)) held_reached

abbrev done_system : System
done_system = fresh 2 (idle ∷ idle ∷ [])

done_reached : Reach (fresh 2 (idle ∷ idle ∷ [])) done_system
done_reached =
    next (next held_reached (move (idle ∷ []) [] refl (load_release (omega arith))))
      (move (idle ∷ []) [] refl (release_wins refl))
