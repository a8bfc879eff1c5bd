-- ===== src/Tests/Sorting.antt =====
-- A sort by insertion, for the argument that stands for sort.Slice in internal/provider.
use llm_mux_fork.Prelude.{
  suc, ◌≡◌, refl, sym, subst, Bool, true, false, Bool-cases, ◌⊎◌, inl, inr, if◌then◌else◌, [], ◌∷◌,
  List, length, In, here, there, uncons, IsReordering, IsSort, IsAscending, All, text_less_asym,
  text_less_trans, arith,
}
use llm_mux_fork.Legacy.Select.{by_id}

-- A sort, for the argument that stands for sort.Slice.
module _ {ℓ} {A : Type ℓ} (lt : A → A → Bool) where
  place : A → List A → List A
  place x [] = x ∷ []
  place x (y ∷ ys) = if lt x y then x ∷ y ∷ ys else y ∷ place x ys

  pub sort : List A → List A
  unfolding place
  sort [] = []
  sort (x ∷ xs) = place x (sort xs)

  place-kept : (z x : A) (ys : List A) → In z (place x ys) → (z ≡ x) ⊎ In z ys
  unfolding place
  place-kept z x [] i = uncons i
  place-kept z x (y ∷ ys) i = elim (Bool-cases (lt x y)) [
    | inl first ↦ uncons (rw first at i)
    | inr later ↦ elim (uncons (rw later at i)) [
      | inl e ↦ inr (subst (λ w. In w (y ∷ ys)) (sym e) here)
      | inr j ↦ elim (place-kept z x ys j) [ inl e ↦ inl e | inr k ↦ inr (there k) ]
    ]
  ]

  sort-kept : (z : A) (xs : List A) → In z (sort xs) → In z xs
  unfolding sort
  sort-kept z [] i = i
  sort-kept z (x ∷ xs) i = elim (place-kept z x (sort xs) i) [
    | inl e ↦ subst (λ w. In w (x ∷ xs)) (sym e) here
    | inr j ↦ there (sort-kept z xs j)
  ]

  length-place : (x : A) (ys : List A) → length (place x ys) ≡ suc (length ys)
  unfolding place
  length-place x [] = refl
  length-place x (y ∷ ys) = ground (arith, length-place x ys)

  length-sort : (xs : List A) → length (sort xs) ≡ length xs
  unfolding sort
  length-sort [] = refl
  length-sort (x ∷ xs) = omega (arith, length-place x (sort xs), length-sort xs)

  pub sort-IsReordering : IsReordering sort
  sort-IsReordering = record { kept = sort-kept; as_many = length-sort }

-- By an order, the sort ascends.
module _ {ℓ} {A : Type ℓ} (lt : A → A → Bool) (asym : (x y : A) → lt x y ≡ true → lt y x ≡ false)
    (trans : (x y z : A) → lt x y ≡ true → lt y z ≡ true → lt x z ≡ true) where
  place-held : (z x : A) (ys : List A) → (z ≡ x) ⊎ In z ys → In z (place lt x ys)
  unfolding place
  place-held z x [] (inl e) = subst (λ w. In w (x ∷ [])) (sym e) here
  place-held z x [] (inr i) = elim i [ ]
  place-held z x (y ∷ ys) h = elim (Bool-cases (lt x y)) [
    | inl first ↦
        rw first (elim h [ inl e ↦ subst (λ w. In w (x ∷ y ∷ ys)) (sym e) here | inr i ↦ there i ])
    | inr later ↦ rw later (elim h [
      | inl e ↦ there (place-held z x ys (inl e))
      | inr i ↦ elim (uncons i) [
        | inl e ↦ subst (λ w. In w (y ∷ place lt x ys)) (sym e) here
        | inr j ↦ there (place-held z x ys (inr j))
      ]
    ])
  ]

  sort-held : (z : A) (xs : List A) → In z xs → In z (sort lt xs)
  unfolding sort
  sort-held z [] i = i
  sort-held z (x ∷ xs) i = elim (uncons i) [
    | inl e ↦ place-held z x (sort lt xs) (inl e)
    | inr j ↦ place-held z x (sort lt xs) (inr (sort-held z xs j))
  ]

  -- What is not less than the second is not less than the first.
  not_less : (x y z : A) → lt x y ≡ true → lt z y ≡ false → lt z x ≡ false
  not_less x y z h k = elim (Bool-cases (lt z x)) [
    | inl less ↦ let t = trans z x y less h in cc
    | inr fine ↦ fine
  ]

  All-not_less :
      (x y : A) (ys : List A)
      → lt x y ≡ true
      → All (λ z. lt z y ≡ false) ys
      → All (λ z. lt z x ≡ false) ys
  All-not_less x y [] h all = tt
  All-not_less x y (z ∷ ys) h all = (not_less x y z h all.0, All-not_less x y ys h all.1)

  All-place :
      (x y : A) (ys : List A)
      → lt x y ≡ false
      → All (λ z. lt z y ≡ false) ys
      → All (λ z. lt z y ≡ false) (place lt x ys)
  unfolding place
  All-place x y [] h all = (h, tt)
  All-place x y (w ∷ ys) h all = elim (Bool-cases (lt x w)) [
    | inl first ↦ rw first (h, all)
    | inr later ↦ rw later (all.0, All-place x y ys h all.1)
  ]

  place-IsAscending : (x : A) (ys : List A) → IsAscending lt ys → IsAscending lt (place lt x ys)
  unfolding place
  place-IsAscending x [] up = (tt, tt)
  place-IsAscending x (y ∷ ys) up = elim (Bool-cases (lt x y)) [
    | inl first ↦ rw first ((asym x y first, All-not_less x y ys first up.0), up)
    | inr later ↦ rw later (All-place x y ys later up.0, place-IsAscending x ys up.1)
  ]

  sort-IsAscending : (xs : List A) → IsAscending lt (sort lt xs)
  unfolding sort
  sort-IsAscending [] = tt
  sort-IsAscending (x ∷ xs) = place-IsAscending x (sort lt xs) (sort-IsAscending xs)

pub by_id-IsSort : IsSort by_id (sort by_id)
by_id-IsSort = record {
  reordering = sort-IsReordering by_id;
  held =
      sort-held by_id (λ x y. text_less_asym x.id y.id) (λ x y z. text_less_trans x.id y.id z.id);
  ascending =
      sort-IsAscending by_id (λ x y. text_less_asym x.id y.id)
        (λ x y z. text_less_trans x.id y.id z.id);
}
