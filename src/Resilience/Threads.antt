-- ===== src/Resilience/Threads.antt =====
-- internal/resilience/retry.go: the loops of TryAcquire and Release, run by any number of
-- goroutines that interleave at each atomic operation. As in Manager.Execute
-- (internal/provider/manager.go) only a goroutine that was granted a retry releases it.
use llm_mux_fork.Prelude.{
  ℕ, ◌+◌, ◌-◌, ◌≤◌, ◌<◌, ◌≡◌, ◌≢◌, refl, ap, sym, subst, List, [], ◌∷◌, ◌++◌, arith,
}
use llm_mux_fork.Resilience.Budget.{RetryBudget}

-- `acquiring c` and `releasing c` have loaded `c` and are about to compare and swap.
pub data Pc : Type 0 where
  idle holding : Pc
  acquiring releasing : ℕ → Pc

-- One atomic operation of a goroutine, on the counter of a budget with the given maximum.
pub data Move (max_capacity capacity : ℕ) : Pc → ℕ → Pc → Type 0 where
  load_acquire : 0 < capacity → Move max_capacity capacity idle capacity (acquiring capacity)
  refused : capacity ≡ 0 → Move max_capacity capacity idle capacity idle
  acquire_wins : {c : ℕ} → c ≡ capacity → Move max_capacity capacity (acquiring c) (c - 1) holding
  acquire_loses : {c : ℕ} → c ≢ capacity → Move max_capacity capacity (acquiring c) capacity idle
  load_release :
      capacity < max_capacity → Move max_capacity capacity holding capacity (releasing capacity)
  release_full : max_capacity ≤ capacity → Move max_capacity capacity holding capacity idle
  release_wins : {c : ℕ} → c ≡ capacity → Move max_capacity capacity (releasing c) (c + 1) idle
  release_loses : {c : ℕ} → c ≢ capacity → Move max_capacity capacity (releasing c) capacity holding

pub record System : Type 0 where
  pub budget : RetryBudget
  pub threads : List Pc

pub data Step (s : System) : System → Type 0 where
  move :
      {p q : Pc} {capacity : ℕ} (before behind : List Pc)
      → s.threads ≡ before ++ p ∷ behind
      → Move s.budget.max_capacity s.budget.capacity p capacity q
      → Step s (record {
        budget = record { capacity = capacity; max_capacity = s.budget.max_capacity };
        threads = before ++ q ∷ behind;
      })

pub data Reach (s : System) : System → Type 0 where
  here : Reach s s
  next : {t u : System} → Reach s t → Step t u → Reach s u

-- How many retries a goroutine holds, and how many a list of them.
unfoldable pub held : Pc → ℕ
held idle = 0
held (acquiring c) = 0
held holding = 1
held (releasing c) = 1

unfoldable pub total_held : List Pc → ℕ
unfolding held
total_held [] = 0
total_held (p ∷ ps) = held p + total_held ps

-- A goroutine that tries to acquire has loaded a positive counter.
unfoldable pub Sound : Pc → Type 0
Sound (acquiring c) = 0 < c
Sound _ = Unit

abbrev AllSound : List Pc → Type 0
AllSound [] = Unit
AllSound (p ∷ ps) = Sound p × AllSound ps

total_held-append : (ps qs : List Pc) → total_held (ps ++ qs) ≡ total_held ps + total_held qs
unfolding total_held
total_held-append [] qs = omega arith
total_held-append (p ∷ ps) qs = omega (arith, total_held-append ps qs)

AllSound-replace :
    (ps qs : List Pc) (p q : Pc)
    → AllSound (ps ++ p ∷ qs)
    → Sound p × (Sound q → AllSound (ps ++ q ∷ qs))
AllSound-replace [] qs p q h = (h.0, λ s. (s, h.1))
AllSound-replace (x ∷ ps) qs p q h =
    let (sound, put) = AllSound-replace ps qs p q h.1 in (sound, λ s. (h.0, put s))

-- The counter and the retries in flight always add up to the maximum.
pub record Balanced (max_capacity : ℕ) (s : System) : Type 0 where
  pub same : s.budget.max_capacity ≡ max_capacity
  pub total : s.budget.capacity + total_held s.threads ≡ max_capacity
  pub sound : AllSound s.threads

Move-balance :
    {m c c' : ℕ} {p q : Pc} (rest : ℕ)
    → Move m c p c' q
    → Sound p
    → c + (rest + held p) ≡ m
    → Sound q × (c' + (rest + held q) ≡ m)
unfolding held Sound
Move-balance rest (load_acquire h) s e = (h, e)
Move-balance rest (refused h) s e = (tt, e)
Move-balance rest (acquire_wins h) s e = (tt, omega arith)
Move-balance rest (acquire_loses h) s e = (tt, e)
Move-balance rest (load_release h) s e = (tt, e)
Move-balance rest (release_full h) s e = absurd (omega arith)
Move-balance rest (release_wins h) s e = (tt, omega arith)
Move-balance rest (release_loses h) s e = (tt, e)

Step-Balanced : {m : ℕ} {s t : System} → Step s t → Balanced m s → Balanced m t
unfolding total_held
Step-Balanced {m} {s} (move {p} {q} {capacity} ps qs e mv) b = record {
  same = b.same;
  total = omega (arith, total_held-append ps (q ∷ qs), after.1);
  sound = placed.1 after.0;
}
  where
    placed : Sound p × (Sound q → AllSound (ps ++ q ∷ qs))
    placed = AllSound-replace ps qs p q (rw e at (b.sound))

    before : s.budget.capacity + (total_held ps + total_held qs + held p) ≡ s.budget.max_capacity
    before = omega (arith, b.total, b.same, ap total_held e, total_held-append ps (p ∷ qs))

    after : Sound q × (capacity + (total_held ps + total_held qs + held q) ≡ s.budget.max_capacity)
    after = Move-balance (total_held ps + total_held qs) mv placed.0 before

Reach-Balanced : {m : ℕ} {s t : System} → Reach s t → Balanced m s → Balanced m t
Reach-Balanced here b = b
Reach-Balanced (next r st) b = Step-Balanced st (Reach-Balanced r b)

-- No thread is in the middle of an operation or holds a retry.
abbrev pub Quiet : List Pc → Type 0
Quiet [] = Unit
Quiet (p ∷ ps) = (p ≡ idle) × Quiet ps

Quiet-Balanced : (ps : List Pc) → Quiet ps → AllSound ps × (total_held ps ≡ 0)
unfolding total_held held Sound
Quiet-Balanced [] q = (tt, refl)
Quiet-Balanced (p ∷ ps) q =
    let (sound, none_held) = Quiet-Balanced ps q.1 in
    ((subst Sound (sym q.0) tt, sound), omega (arith, ap held q.0))

abbrev pub fresh : ℕ → List Pc → System
fresh m ps = record { budget = record { capacity = m; max_capacity = m }; threads = ps }

fresh-Balanced : (m : ℕ) (ps : List Pc) → Quiet ps → Balanced m (fresh m ps)
fresh-Balanced m ps q = record {
  same = refl;
  total = omega (arith, (Quiet-Balanced ps q).1);
  sound = (Quiet-Balanced ps q).0;
}

-- However the goroutines interleave, from a start with none in the middle of an operation, the retries
-- in flight and the counter add up to the maximum, so that never more retries are in flight.
pub retries_in_flight :
    (m : ℕ) (ps : List Pc) (s : System)
    → Quiet ps
    → Reach (fresh m ps) s
    → (s.budget.capacity + total_held s.threads ≡ m) × (total_held s.threads ≤ m)
retries_in_flight m ps s q r =
    let b = Reach-Balanced r (fresh-Balanced m ps q) in (b.total, omega (arith, b.total))

-- No retry is lost: once no goroutine is in the middle of an operation or holds a retry, the counter is
-- back at its maximum.
pub capacity_restored :
    (m : ℕ) (ps : List Pc) (s : System)
    → Quiet ps
    → Reach (fresh m ps) s
    → Quiet s.threads
    → s.budget.capacity ≡ m
capacity_restored m ps s q r done =
    omega (arith, (retries_in_flight m ps s q r).0, (Quiet-Balanced _ done).1)
