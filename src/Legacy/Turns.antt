-- ===== src/Legacy/Turns.antt =====
-- internal/provider/selector.go: what RoundRobinSelector.Pick selects, and in which order it goes round.
use llm_mux_fork.Prelude.{
  ℕ, ◌<◌, ◌≡◌, ◌≢◌, refl, sym, subst, ltb, Bool, true, false, Bool-cases, inl, inr, Option, none,
  some, Text, text_eq, List, [], ◌∷◌, length, get_elem?, In, here, there, In-if, IsReordering, IsAt,
  IsAt-lt, arith,
}
use llm_mux_fork.Clock.{Time}
use llm_mux_fork.Provider.Types.{Auth}
use llm_mux_fork.Groups.Resolve.{Resolvers}
use llm_mux_fork.Sticky.Store.{get_key}
use llm_mux_fork.Legacy.Select.{
  RoundRobinSelector, Outcome, selected, verdict_on, available_auths, find_id, sticky_auth,
  remember, rotate, or_rotate, pick_among, pick_key, by_id, in_id_order, pick_ready, pick,
}

-- A credential of the list is selected.
abbrev SelectsFrom : List Auth → Outcome → Type 0
SelectsFrom auths o = (a : Auth) × (o ≡ selected a) × In a auths

pub find_id-In : (id : Text) (auths : List Auth) (a : Auth) → find_id id auths ≡ some a → In a auths
unfolding find_id
find_id-In id [] a h = cc
find_id-In id (b ∷ auths) a h = elim (Bool-cases (text_eq b.id id)) [
  | inl same ↦ let e : b ≡ a = ground arith in subst (λ c. In c (b ∷ auths)) e here
  | inr other ↦ there (find_id-In id auths a (ground arith))
]

remember-SelectsFrom :
    (clock : Time) (key : Text) (auths : List Auth) (i : ℕ) (s : RoundRobinSelector)
    → IsAt auths i
    → SelectsFrom auths (remember clock key (get_elem? auths i) s).1
unfolding remember
remember-SelectsFrom clock key auths i s at = rw at.found (at.value, refl, at.stands)

rotate-SelectsFrom :
    (clock : Time) (key : Text) (auths : List Auth) (s : RoundRobinSelector)
    → 0 < length auths
    → SelectsFrom auths (rotate clock key auths s).1
unfolding rotate
rotate-SelectsFrom clock key auths s h =
    remember-SelectsFrom clock key auths _ _ (IsAt-lt auths _ (omega arith))

pick_among-SelectsFrom :
    (clock : Time) (key : Text) (force : Bool) (auths : List Auth) (s : RoundRobinSelector)
    → 0 < length auths
    → SelectsFrom auths (pick_among clock key force auths s).1
unfolding pick_among
pick_among-SelectsFrom clock key true auths s h = rotate-SelectsFrom clock key auths s h
pick_among-SelectsFrom clock key false auths s h = by_sticky (get_key clock key s.sticky).1
  where
    by_found :
        (o : Option Auth) (t : RoundRobinSelector)
        → ((a : Auth) → o ≡ some a → In a auths)
        → SelectsFrom auths (or_rotate clock key auths t o).1
    by_found none t g = unfold or_rotate in rotate-SelectsFrom clock key auths t h
    by_found (some a) t g = unfold or_rotate in (a, refl, g a refl)

    by_sticky :
        (o : Option Text)
        → SelectsFrom auths
            (or_rotate clock key auths
              (record s { sticky = (get_key clock key s.sticky).0 })
              (sticky_auth o auths)).1
    by_sticky none =
        by_found (sticky_auth none auths) (record s { sticky = (get_key clock key s.sticky).0 })
          (λ a e. unfold sticky_auth in cc)
    by_sticky (some id) =
        by_found (sticky_auth (some id) auths)
          (record s { sticky = (get_key clock key s.sticky).0 })
          (λ a e. find_id-In id auths a (unfold sticky_auth in e))

pub available_auths-In :
    (resolvers : Resolvers) (model : Text) (now : Time) (auths : List Auth) (a : Auth)
    → In a (available_auths resolvers model now auths)
    → In a auths × ((verdict_on resolvers model now a).blocked ≡ false)
unfolding available_auths
available_auths-In resolvers model now [] a i = elim i [ ]
available_auths-In resolvers model now (b ∷ auths) a i =
    elim (In-if (verdict_on resolvers model now b).blocked i) [
      | inl (e, free) ↦
          subst (λ c. In c (b ∷ auths) × ((verdict_on resolvers model now c).blocked ≡ false))
            (sym e) (here, free)
      | inr j ↦ let (k, free) = available_auths-In resolvers model now auths a j in (there k, free)
    ]

pub In-available_auths :
    (resolvers : Resolvers) (model : Text) (now : Time) (auths : List Auth) (a : Auth)
    → In a auths
    → (verdict_on resolvers model now a).blocked ≡ false
    → In a (available_auths resolvers model now auths)
unfolding available_auths
In-available_auths resolvers model now [] a i free = elim i [ ]
In-available_auths resolvers model now (b ∷ auths) a here free = rw free here
In-available_auths resolvers model now (b ∷ auths) a (there i) free =
    let j = In-available_auths resolvers model now auths a i free in
    elim (Bool-cases (verdict_on resolvers model now b).blocked) [
      | inl blocked ↦ rw blocked j
      | inr free_too ↦ rw free_too (there j)
    ]

pub In-filled {ℓ} : {A : Type ℓ} {a : A} (xs : List A) → In a xs → xs ≢ []
In-filled [] i e = elim i [ ]
In-filled (x ∷ xs) i e = cc

module _ (sort_by : (Auth → Auth → Bool) → List Auth → List Auth)
    (reorders : IsReordering (sort_by by_id)) where
  pub in_id_order-In :
      (auths : List Auth) (a : Auth) → In a (in_id_order sort_by auths) → In a auths
  unfolding in_id_order
  in_id_order-In auths a i = elim (Bool-cases (ltb 1 (length auths))) [
    | inl several ↦ reorders.kept a auths (rw several at i)
    | inr one ↦ rw one at i
  ]

  pub length-in_id_order : (auths : List Auth) → length (in_id_order sort_by auths) ≡ length auths
  unfolding in_id_order
  length-in_id_order auths = elim (Bool-cases (ltb 1 (length auths))) [
    | inl several ↦ rw several (reorders.as_many auths)
    | inr one ↦ rw one refl
  ]

  pick_ready-SelectsFrom :
      (clock : Time) (key : Text) (force : Bool) (auths : List Auth) (otherwise : Outcome)
      (s : RoundRobinSelector)
      → auths ≢ []
      → SelectsFrom auths (pick_ready sort_by clock key force auths otherwise s).1
  unfolding pick_ready
  pick_ready-SelectsFrom clock key force [] otherwise s ne = absurd (ne refl)
  pick_ready-SelectsFrom clock key force (a ∷ auths) otherwise s ne =
      let (b, e, i) =
        pick_among-SelectsFrom clock key force (in_id_order sort_by (a ∷ auths)) s
          (omega (arith, length-in_id_order (a ∷ auths))) in
      (b, e, in_id_order-In (a ∷ auths) b i)

  -- Where a credential of those given is not blocked, Pick selects one: it is among those given, and it
  -- is not blocked. So it is with and without a forced rotation, and whatever the sticky store and the
  -- cursors hold.
  pub pick-selected :
      (resolvers : Resolvers) (now clock : Time) (provider model : Text) (force : Bool)
      (auths : List Auth) (s : RoundRobinSelector) (b : Auth)
      → In b auths
      → (verdict_on resolvers model now b).blocked ≡ false
      → (a : Auth) × ((pick sort_by resolvers now clock provider model force auths s).1
          ≡ selected a)
        × In a auths
        × ((verdict_on resolvers model now a).blocked ≡ false)
  unfolding pick
  pick-selected resolvers now clock provider model force [] s b i free = elim i [ ]
  pick-selected resolvers now clock provider model force (c ∷ auths) s b i free =
      let (a, e, j) =
        pick_ready-SelectsFrom clock (pick_key provider model) force
          (available_auths resolvers model now (c ∷ auths)) _ s
          (In-filled (available_auths resolvers model now (c ∷ auths))
            (In-available_auths resolvers model now (c ∷ auths) b i free)) in
      let (k, open_too) = available_auths-In resolvers model now (c ∷ auths) a j in
      (a, e, k, open_too)
