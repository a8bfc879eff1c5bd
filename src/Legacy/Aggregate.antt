-- ===== src/Legacy/Aggregate.antt =====
-- internal/provider/state.go: updateAggregatedAvailability ranges over a Go map, whose order is open;
-- what it computes is the same in every order, and it is what its name says.
use mathlib.Core.Logic.{∥∥₁_elim}
use mathlib.Core.List.{Perm, Permᴰ}
use llm_mux_fork.Prelude.{
  In, All-In, ℕ, ◌≤◌, ◌≡◌, ◌≢◌, ◌↔◌, refl, ap, ◌∙◌, ltb_ℤ, ltb, ◌==◌, ℤ, Bool, true, false, not,
  ◌&&◌, ◌||◌, if◌then◌else◌, [], ◌∷◌, Text, Map, All, arith,
}
use llm_mux_fork.Clock.{Time}
use llm_mux_fork.Provider.Types.{ModelState}
use llm_mux_fork.Legacy.State.{
  Tally, no_tally, is_state_unavailable, is_waiting, tally_state, tally_states,
}

earlier_swap :
    (acc m n : ℕ) (v w : Bool)
    → (v ≡ true → m ≢ 0)
    → (w ≡ true → n ≢ 0)
    → (let earlier = λ (b : Bool) (k acc : ℕ). if b && (acc == 0 || ltb k acc) then k else acc in
        earlier v m (earlier w n acc) ≡ earlier w n (earlier v m acc))
earlier_swap acc m n true true p q = ground arith
earlier_swap acc m n true false p q = refl
earlier_swap acc m n false w p q = refl

recover_swap :
    (acc m n : ℕ) (v w : Bool)
    → (let earlier = λ (b : Bool) (k acc : ℕ).
          if b && (acc == 0 || (not (k == 0) && ltb k acc)) then k else acc in
        earlier v m (earlier w n acc) ≡ earlier w n (earlier v m acc))
recover_swap acc m n true true = ground arith
recover_swap acc m n true false = refl
recover_swap acc m n false w = refl

level_swap :
    (acc m n : ℤ) (v w : Bool)
    → (let higher = λ (b : Bool) (k acc : ℤ). if b && ltb_ℤ acc k then k else acc in
        higher v m (higher w n acc) ≡ higher w n (higher v m acc))
level_swap acc m n true true = ground arith
level_swap acc m n true false = refl
level_swap acc m n false w = refl

is_waiting-nonzero :
    (now : Time) (s : ModelState) → is_waiting now s ≡ true → s.next_retry_after ≢ 0
unfolding is_waiting
is_waiting-nonzero now s h = ground arith

and_swap : (a b c : Bool) → ((a && b) && c) ≡ ((a && c) && b)
and_swap a b c = ground arith

or_swap : (a b c : Bool) → ((a || b) || c) ≡ ((a || c) || b)
or_swap a b c = ground arith

tally_state-swap :
    (now : Time) (t : Tally) (s u : ModelState)
    → tally_state now (tally_state now t s) u ≡ tally_state now (tally_state now t u) s
unfolding tally_state
tally_state-swap now t s u = λ i. record {
  all_unavailable =
      and_swap t.all_unavailable (is_state_unavailable now s) (is_state_unavailable now u) i;
  earliest_retry =
      earlier_swap t.earliest_retry u.next_retry_after s.next_retry_after (is_waiting now u)
        (is_waiting now s) (is_waiting-nonzero now u) (is_waiting-nonzero now s) i;
  quota_exceeded = or_swap t.quota_exceeded s.quota.exceeded u.quota.exceeded i;
  quota_recover =
      recover_swap t.quota_recover u.quota.next_recover_at s.quota.next_recover_at u.quota.exceeded
        s.quota.exceeded i;
  max_backoff_level =
      level_swap t.max_backoff_level u.quota.backoff_level s.quota.backoff_level u.quota.exceeded
        s.quota.exceeded i;
}

tally_states-Permᴰ :
    (now : Time) (t : Tally) {m n : Map ModelState}
    → Permᴰ m n
    → tally_states now t m ≡ tally_states now t n
unfolding tally_states
tally_states-Permᴰ now t Permᴰ.nil = refl
tally_states-Permᴰ now t (Permᴰ.cons {a} {l₂} e p) =
    tally_states-Permᴰ now (tally_state now t a.1) p
    ∙ ap (λ (x : Text × ModelState). tally_states now (tally_state now t x.1) l₂) e
tally_states-Permᴰ now t (Permᴰ.swap {a} {b} {a'} {b'} {l} e f) =
    ap (λ x. tally_states now x l) (tally_state-swap now t a.1 b.1)
    ∙ (λ i. tally_states now (tally_state now (tally_state now t (f i).1) (e i).1) l)
tally_states-Permᴰ now t (Permᴰ.trans p q) = tally_states-Permᴰ now t p ∙ tally_states-Permᴰ now t q

Tally-set : IsSet Tally
Tally-set = hlevel

-- The order in which the states of the models are visited does not matter to the availability of the
-- credential, to its retry time or to its quota.
pub tally_states-Perm :
    (now : Time) (m n : Map ModelState)
    → Perm m n
    → tally_states now no_tally m ≡ tally_states now no_tally n
tally_states-Perm now m n p = ∥∥₁_elim p (Tally-set _ _) (tally_states-Permᴰ now no_tally)

-- All the states so far were unavailable, and those of the list are.
all_unavailable_lem :
    (now : Time) (t : Tally) (m : Map ModelState)
    → ((tally_states now t m).all_unavailable ≡ true)
      ↔ ((t.all_unavailable ≡ true) × All (λ e. is_state_unavailable now e.1 ≡ true) m)
unfolding tally_states tally_state
all_unavailable_lem now t [] = ((λ h. (h, tt)), (λ h. h.0))
all_unavailable_lem now t ((k, s) ∷ m) =
    let (fwd, bwd) = all_unavailable_lem now (tally_state now t s) m in
    (
      (λ h. let (here, rest) = fwd h in (ground arith, (ground arith, rest))),
      (λ h. bwd (rw (h.0, h.1.0), h.1.1)),
    )

-- The earliest retry time only comes nearer.
earliest_falls :
    (now : Time) (t : Tally) (m : Map ModelState)
    → t.earliest_retry ≢ 0
    → ((tally_states now t m).earliest_retry ≢ 0)
      × ((tally_states now t m).earliest_retry ≤ t.earliest_retry)
unfolding tally_states
earliest_falls now t [] h = (h, omega arith)
earliest_falls now t ((k, s) ∷ m) h =
    let (set, below) = step_falls in
    let (nonzero, rest) = earliest_falls now (tally_state now t s) m set in
    (nonzero, omega (arith, rest, below))
  where
    step_falls :
        ((tally_state now t s).earliest_retry ≢ 0)
        × ((tally_state now t s).earliest_retry ≤ t.earliest_retry)
    step_falls = unfold tally_state in ground (arith, is_waiting-nonzero now s)

earliest_bound :
    (now : Time) (t : Tally) (m : Map ModelState)
    → All
        (λ e.
          is_waiting now e.1 ≡ true
          → ((tally_states now t m).earliest_retry ≢ 0)
            × ((tally_states now t m).earliest_retry ≤ e.1.next_retry_after))
        m
unfolding tally_states
earliest_bound now t [] = tt
earliest_bound now t ((k, s) ∷ m) = (here, earliest_bound now (tally_state now t s) m)
  where
    taken :
        is_waiting now s ≡ true
        → ((tally_state now t s).earliest_retry ≢ 0)
          × ((tally_state now t s).earliest_retry ≤ s.next_retry_after)
    taken w = unfold tally_state in ground (arith, is_waiting-nonzero now s)

    here :
        is_waiting now s ≡ true
        → ((tally_states now (tally_state now t s) m).earliest_retry ≢ 0)
          × ((tally_states now (tally_state now t s) m).earliest_retry ≤ s.next_retry_after)
    here w =
        let (set, below) = taken w in
        let (nonzero, rest) = earliest_falls now (tally_state now t s) m set in
        (nonzero, omega (arith, rest, below))

-- The credential counts as unavailable exactly when the states of all its models are unavailable.
pub tally_states-unavailable :
    (now : Time) (m : Map ModelState)
    → ((tally_states now no_tally m).all_unavailable ≡ true)
      ↔ All (λ e. is_state_unavailable now e.1 ≡ true) m
tally_states-unavailable now m =
    let (fwd, bwd) = all_unavailable_lem now no_tally m in ((λ h. (fwd h).1), (λ h. bwd (refl, h)))

-- Where a model of the credential waits for a retry time, the credential has a retry time, and it is
-- not later than the model's.
pub tally_states-earliest :
    (now : Time) (m : Map ModelState) (model : Text) (s : ModelState)
    → In (model, s) m
    → is_waiting now s ≡ true
    → ((tally_states now no_tally m).earliest_retry ≢ 0)
      × ((tally_states now no_tally m).earliest_retry ≤ s.next_retry_after)
tally_states-earliest now m model s i waits =
    All-In
      (λ e.
        is_waiting now e.1 ≡ true
        → ((tally_states now no_tally m).earliest_retry ≢ 0)
          × ((tally_states now no_tally m).earliest_retry ≤ e.1.next_retry_after))
      m (earliest_bound now no_tally m) i waits
