-- ===== src/Registry/Choice.antt =====
-- internal/provider/auth_registry.go: what Pick promises.
use llm_mux_fork.Prelude.{
  ◌≤◌, ◌≡◌, refl, sym, subst, ltb→lt, ◌⊎◌, inl, inr, ltb, Bool, true, false, not, if◌then◌else◌,
  List, [], ◌∷◌, Text, txt, All, All-In, In, here, there, arith,
}
use llm_mux_fork.Clock.{Time, is_zero}
use llm_mux_fork.Registry.Entry.{AuthEntry}
use llm_mux_fork.Registry.Ops.{increment_active_requests, is_in_cooldown, is_blocked_for_model}
use llm_mux_fork.Registry.Pick.{
  picked, cooling_down, refused, Class, skipped, available, waiting, blocked_class, classify,
  add_free, free_entries, least_busy, choose, reset_in,
}

In-add_free :
    (model : Text) (now : Time) (x e : AuthEntry) (c : Class) (es : List AuthEntry)
    → classify model now x ≡ c
    → In e (add_free c x es)
    → ((e ≡ x) × (classify model now x ≡ available)) ⊎ In e es
unfolding add_free
In-add_free model now x e available es h here = inl (refl, h)
In-add_free model now x e available es h (there i) = inr i
In-add_free model now x e skipped es h i = inr i
In-add_free model now x e (waiting t) es h i = inr i

In-add_free_there :
    (c : Class) (x : AuthEntry) {e : AuthEntry} {es : List AuthEntry}
    → In e es
    → In e (add_free c x es)
unfolding add_free
In-add_free_there available x i = there i
In-add_free_there skipped x i = i
In-add_free_there (waiting t) x i = i

free_entries-In :
    (model : Text) (now : Time) (es : List AuthEntry) {e : AuthEntry}
    → In e (free_entries model now es)
    → In e es × (classify model now e ≡ available)
unfolding free_entries
free_entries-In model now [] i = elim i [ ]
free_entries-In model now (x ∷ es) {e} i =
    elim (In-add_free model now x e (classify model now x) (free_entries model now es) refl i) [
      | inl (same, passes) ↦ (subst (λ y. In y (x ∷ es)) (sym same) here, rw same passes)
      | inr j ↦ (let (k, passes) = free_entries-In model now es j in (there k, passes))
    ]

skip_second : {e x y : AuthEntry} {es : List AuthEntry} → In e (x ∷ es) → In e (x ∷ y ∷ es)
skip_second here = here
skip_second (there i) = there (there i)

-- `e` stands at the head or in the list, with the fewest requests.
abbrev pub IsLeastBusy : AuthEntry → AuthEntry → List AuthEntry → Type 0
IsLeastBusy e best es =
    In e (best ∷ es)
    × (e.quota.active_requests ≤ best.quota.active_requests)
    × All (λ x. e.quota.active_requests ≤ x.quota.active_requests) es

IsLeastBusy-cons :
    (e x best : AuthEntry) (es : List AuthEntry) (less : Bool)
    → ltb x.quota.active_requests best.quota.active_requests ≡ less
    → IsLeastBusy e (if less then x else best) es
    → IsLeastBusy e best (x ∷ es)
IsLeastBusy-cons e x best es true h (i, least, all) =
    (there i, omega (arith, least, ltb→lt _ _ h), (least, all))
IsLeastBusy-cons e x best es false h (i, least, all) =
    (skip_second i, least, (ground (arith, least, h), all))

least_busy-IsLeastBusy :
    (best : AuthEntry) (es : List AuthEntry) → IsLeastBusy (least_busy best es) best es
unfolding least_busy
least_busy-IsLeastBusy best [] = (here, omega arith, tt)
least_busy-IsLeastBusy best (e ∷ es) = IsLeastBusy-cons _ e best es _ refl (
    least_busy-IsLeastBusy
      (if ltb e.quota.active_requests best.quota.active_requests then e else best) es)

IsLeastBusy-In :
    {e best : AuthEntry} (es : List AuthEntry)
    → IsLeastBusy e best es
    → {x : AuthEntry} → In x (best ∷ es)
    → e.quota.active_requests ≤ x.quota.active_requests
IsLeastBusy-In es (i, least, all) here = least
IsLeastBusy-In es (i, least, all) (there j) = All-In _ es all j

-- A free entry: enabled, out of cooldown, and not blocked for the model.
abbrev pub IsFree : Text → Time → AuthEntry → Type 0
IsFree model now e =
    (e.disabled ≡ false)
    × (is_in_cooldown now e ≡ false)
    × ((is_blocked_for_model e model now).blocked ≡ false)

classify-IsFree :
    (model : Text) (now : Time) (e : AuthEntry)
    → classify model now e ≡ available
    → IsFree model now e
unfolding classify blocked_class
classify-IsFree model now e h = ground (arith, h)

IsFree-classify :
    (model : Text) (now : Time) (e : AuthEntry)
    → IsFree model now e
    → classify model now e ≡ available
unfolding classify blocked_class
IsFree-classify model now e (on, warm, unblocked) = ground (arith, on, warm, unblocked)

In-free_entries :
    (model : Text) (now : Time) (es : List AuthEntry) {e : AuthEntry}
    → In e es
    → classify model now e ≡ available
    → In e (free_entries model now es)
unfolding free_entries add_free
In-free_entries model now [] i h = elim i [ ]
In-free_entries model now (x ∷ es) here h = rw h here
In-free_entries model now (x ∷ es) (there i) h =
    In-add_free_there (classify model now x) x (In-free_entries model now es i h)

-- `e` is a free candidate, and no free candidate has fewer requests.
abbrev pub IsBestChoice : Text → Time → List AuthEntry → AuthEntry → Type 0
IsBestChoice model now es e =
    In e es
    × IsFree model now e
    × ((x : AuthEntry)
        → In x es
        → IsFree model now x
        → e.quota.active_requests ≤ x.quota.active_requests)

pub choose-IsBestChoice :
    (model provider : Text) (now earliest : Time) (es frees : List AuthEntry)
    → free_entries model now es ≡ frees
    → ((e : AuthEntry) × IsBestChoice model now es e
        × (choose frees model provider earliest now ≡ picked (increment_active_requests e)))
      ⊎ (((x : AuthEntry) → In x es → ¬ IsFree model now x)
          × (choose frees model provider earliest now ≡ (
              if not (is_zero earliest)
              then cooling_down model provider (reset_in earliest now)
              else refused (txt "auth_unavailable"))))
unfolding choose
choose-IsBestChoice model provider now earliest es [] h = inr (
  (λ x i passes.
      elim (subst (λ l. In x l) h
        (In-free_entries model now es i (IsFree-classify model now x passes))) [ ]),
  refl,
)
choose-IsBestChoice model provider now earliest es (e ∷ frees) h =
    (let best = least_busy e frees in
      let least = least_busy-IsLeastBusy e frees in
      let (i, passes) = free_entries-In model now es (subst (λ l. In best l) (sym h) least.0) in
      inl (
        best,
        (
          i,
          classify-IsFree model now best passes,
          (λ x j free. IsLeastBusy-In frees least (
              subst (λ l. In x l) h
                (In-free_entries model now es j (IsFree-classify model now x free)))),
        ),
        refl,
      ))
