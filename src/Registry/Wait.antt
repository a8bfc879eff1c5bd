-- ===== src/Registry/Wait.antt =====
-- internal/provider/auth_registry.go: the wait that Pick reports, and Pick as a whole.
use llm_mux_fork.Prelude.{
  ◌≤◌, ◌<◌, ◌≡◌, ◌≢◌, refl, sym, ap, ◌∙◌, ◌||◌, subst, ltb, not, if◌then◌else◌, List, [], ◌∷◌, Text,
  arith, All, All-In, In, here, there, ◌⊎◌, inl, inr, Bool-cases,
}
use llm_mux_fork.Clock.{Time, zero_time, is_zero}
use llm_mux_fork.Registry.Entry.{AuthEntry}
use llm_mux_fork.Registry.Ops.{is_in_cooldown, increment_active_requests}
use llm_mux_fork.Registry.Pick.{
  Picked, picked, cooling_down, Class, skipped, available, waiting, blocked_class, classify,
  add_time, earliest_time, earlier, reset_in, pick, free_entries,
}
use llm_mux_fork.Registry.Choice.{IsFree, choose-IsBestChoice}

-- A wait is never for the zero time.
classify-waiting :
    (model : Text) (now : Time) (e : AuthEntry) (t : Time)
    → classify model now e ≡ waiting t
    → 0 < t
unfolding classify blocked_class is_in_cooldown
classify-waiting model now e t h = ground (arith, h)

In-cons_cases {ℓ} :
    {A : Type ℓ} {e x : A} {es : List A} {P : Type ℓ}
    → In e (x ∷ es)
    → (e ≡ x → P)
    → (In e es → P)
    → P
In-cons_cases here f g = f refl
In-cons_cases (there i) f g = g i

-- The times before the loop and those of the candidates so far, by their least one.
abbrev pub IsEarliest : Text → Time → Time → List AuthEntry → Time → Type 0
IsEarliest model now before es t =
    ((t ≡ before) ⊎ ((e : AuthEntry) × In e es × (classify model now e ≡ waiting t)))
    × ((0 < before) → (0 < t) × (t ≤ before))
    × ((e : AuthEntry) (u : Time) → In e es → classify model now e ≡ waiting u → (0 < t) × (t ≤ u))

IsEarliest-skip :
    (model : Text) (now before : Time) (x : AuthEntry) (es : List AuthEntry) (t : Time)
    → ((u : Time) → classify model now x ≢ waiting u)
    → IsEarliest model now before es t
    → IsEarliest model now before (x ∷ es) t
IsEarliest-skip model now before x es t no_wait (from, low, all) = (
  elim from [ inl h ↦ inl h | inr p ↦ inr (p.0, there p.1, p.2) ],
  low,
  (λ e u i h.
      In-cons_cases i
        (λ same. absurd (no_wait u (subst (λ y. classify model now y ≡ waiting u) same h)))
        (λ j. all e u j h)),
)

earlier_le : (before w : Time) → 0 < w → (0 < earlier before w) × (earlier before w ≤ w)
unfolding earlier
earlier_le before w h = ground (arith, h)

earlier_le_before : (before w : Time) → 0 < before → earlier before w ≤ before
unfolding earlier
earlier_le_before before w h = ground (arith, h)

earlier_cases : (before w : Time) → (earlier before w ≡ before) ⊎ (earlier before w ≡ w)
unfolding earlier
earlier_cases before w = elim (Bool-cases (is_zero before || ltb w before)) [
  | inl h ↦ rw h (inr refl)
  | inr h ↦ rw h (inl refl)
]

waiting_eq :
    (model : Text) (now : Time) {w u : Time} {x e : AuthEntry}
    → classify model now x ≡ waiting w
    → e ≡ x
    → classify model now e ≡ waiting u
    → w ≡ u
waiting_eq model now h same k = cc (h, same, k)

IsEarliest-wait :
    (model : Text) (now before w : Time) (x : AuthEntry) (es : List AuthEntry) (t : Time)
    → classify model now x ≡ waiting w
    → IsEarliest model now (earlier before w) es t
    → IsEarliest model now before (x ∷ es) t
IsEarliest-wait model now before w x es t h (from, low, all) =
    (let positive = classify-waiting model now x w h in
      let (above, below) = earlier_le before w positive in
      let (some_time, least) = low above in
      (
        elim from [
          | inl same ↦ elim (earlier_cases before w) [
            | inl k ↦ inl (same ∙ k)
            | inr k ↦ inr (x, here, h ∙ ap waiting (sym k) ∙ ap waiting (sym same))
          ]
          | inr p ↦ inr (p.0, there p.1, p.2)
        ],
        (λ k. (some_time, omega (arith, least, earlier_le_before before w k))),
        (λ e u i k.
            In-cons_cases i
              (λ same. (some_time, omega (arith, least, below, waiting_eq model now h same k)))
              (λ j. all e u j k)),
      ))

IsEarliest-cons :
    (model : Text) (now before : Time) (x : AuthEntry) (es : List AuthEntry) (t : Time) (c : Class)
    → classify model now x ≡ c
    → IsEarliest model now (add_time c before) es t
    → IsEarliest model now before (x ∷ es) t
unfolding add_time
IsEarliest-cons model now before x es t skipped h =
    IsEarliest-skip model now before x es t (λ u k. absurd (cc (h, k)))
IsEarliest-cons model now before x es t available h =
    IsEarliest-skip model now before x es t (λ u k. absurd (cc (h, k)))
IsEarliest-cons model now before x es t (waiting w) h = IsEarliest-wait model now before w x es t h

earliest_time-IsEarliest :
    (model : Text) (now before : Time) (es : List AuthEntry)
    → IsEarliest model now before es (earliest_time model now before es)
unfolding earliest_time
earliest_time-IsEarliest model now before [] =
    (inl refl, (λ h. (h, omega arith)), (λ e u i h. elim i [ ]))
earliest_time-IsEarliest model now before (x ∷ es) =
    IsEarliest-cons model now before x es _ (classify model now x) refl
      (earliest_time-IsEarliest model now (add_time (classify model now x) before) es)

waits_for : {t : Time} → 0 < t → (a b : Picked) → (if not (is_zero t) then a else b) ≡ a
waits_for {t = t} h a b = ground (arith, h)

-- Where a candidate is free, Pick returns a free candidate, with the count of its requests raised by
-- one, and that candidate had no more requests than the given one.
pub pick-IsFree :
    (provider model : Text) (now : Time) (es : List AuthEntry) (x : AuthEntry)
    → In x es
    → IsFree model now x
    → (best : AuthEntry) × In best es
      × IsFree model now best
      × (best.quota.active_requests ≤ x.quota.active_requests)
      × (pick provider model now es ≡ picked (increment_active_requests best))
unfolding pick
pick-IsFree provider model now [] x i free = elim i [ ]
pick-IsFree provider model now (e ∷ es) x i free =
    elim (choose-IsBestChoice model provider now (earliest_time model now zero_time (e ∷ es))
      (e ∷ es) (free_entries model now (e ∷ es)) refl) [
        | inl (best, (j, free_best, least), h) ↦ (best, j, free_best, least x i free, h)
        | inr (none_free, h) ↦ absurd (none_free x i free)
      ]

-- Where no candidate is free and one waits until the time `u`, Pick fails with the wait until the
-- earliest time for which a candidate waits.
pub pick-earliest :
    (provider model : Text) (now u : Time) (es : List AuthEntry) (x : AuthEntry)
    → All (λ e. ¬ IsFree model now e) es
    → In x es
    → classify model now x ≡ waiting u
    → (t : Time) × (e : AuthEntry) × In e es
      × (classify model now e ≡ waiting t)
      × (t ≤ u)
      × (pick provider model now es ≡ cooling_down model provider (reset_in t now))
unfolding pick
pick-earliest provider model now u [] x none_free i h = elim i [ ]
pick-earliest provider model now u (e ∷ es) x none_free i h =
    (let t = earliest_time model now zero_time (e ∷ es) in
      let (from, low, all) = earliest_time-IsEarliest model now zero_time (e ∷ es) in
      let (positive, least) = all x u i h in
      elim (choose-IsBestChoice model provider now t (e ∷ es) (free_entries model now (e ∷ es))
        refl) [
          | inl (best, (j, free_best, _), _) ↦
              absurd (All-In (λ y. ¬ IsFree model now y) (e ∷ es) none_free j free_best)
          | inr (_, k) ↦ elim from [
            | inl zero_t ↦ absurd (omega (arith, zero_t, positive))
            | inr (y, j, waits) ↦ (t, y, j, waits, least, k ∙ waits_for positive _ _)
          ]
        ])
