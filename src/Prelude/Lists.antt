-- ===== src/Prelude/Lists.antt =====
-- Lists measured and indexed by native numbers, and Boolean searches over them.
use Prim.Native.Nat.{ℕ, zero, suc, ◌+◌, ◌≤◌, ◌<◌}
use mathlib.Core.Path.{◌≡◌, refl, ap}
use mathlib.Core.Bool.{Bool, true, false, ◌||◌}
use mathlib.Core.Logic.{◌⊎◌, inl, inr}
use mathlib.Core.List.{List, [], ◌∷◌, ◌++◌, map}
use mathlib.Core.Option.{Option, none, some}
use native.Mathlib.Omega.{arith}
use llm_mux_fork.Prelude.Tests.{if◌then◌else◌}

module _ {ℓ} {A : Type ℓ} where
  abbrev pub length : List A → ℕ
  length [] = 0
  length (x ∷ xs) = suc (length xs)

  abbrev pub get_elem? : List A → ℕ → Option A
  get_elem? [] i = none
  get_elem? (x ∷ xs) zero = some x
  get_elem? (x ∷ xs) (suc i) = get_elem? xs i

  -- The elements that pass a Boolean test, in their order.
  abbrev pub keep : (A → Bool) → List A → List A
  keep p [] = []
  keep p (x ∷ xs) = if p x then x ∷ keep p xs else keep p xs

  -- Some element passes the test.
  abbrev pub any : (A → Bool) → List A → Bool
  any p [] = false
  any p (x ∷ xs) = p x || any p xs

  -- A predicate by recursion, which computes to a tuple.
  abbrev pub All {κ} : (A → Type κ) → List A → Type κ
  All P [] = Unit
  All P (x ∷ xs) = P x × All P xs

  pub length-append : (xs ys : List A) → length (xs ++ ys) ≡ length xs + length ys
  length-append [] ys = omega arith
  length-append (x ∷ xs) ys = omega (arith, length-append xs ys)

  pub length-keep-le : (p : A → Bool) (xs : List A) → length (keep p xs) ≤ length xs
  length-keep-le p [] = omega arith
  length-keep-le p (x ∷ xs) = ground (arith, length-keep-le p xs)

-- `x` is an element of the list.
pub data In {ℓ} {A : Type ℓ} (x : A) : List A → Type ℓ where
  here : {xs : List A} → In x (x ∷ xs)
  there : {y : A} {xs : List A} → In x xs → In x (y ∷ xs)

pub All-In {ℓ κ} : {A : Type ℓ} (P : A → Type κ) (xs : List A) → All P xs → {x : A} → In x xs → P x
All-In P [] all i = elim i [ ]
All-In P (y ∷ xs) all here = all.0
All-In P (y ∷ xs) all (there i) = All-In P xs all.1 i

pub uncons {ℓ} : {A : Type ℓ} {a x : A} {xs : List A} → In a (x ∷ xs) → (a ≡ x) ⊎ In a xs
uncons here = inl refl
uncons (there i) = inr i

pub In-if {ℓ} :
    {A : Type ℓ} {a x : A} {xs : List A} (b : Bool)
    → In a (if b then xs else x ∷ xs)
    → ((a ≡ x) × (b ≡ false)) ⊎ In a xs
In-if true i = inr i
In-if false i = elim (uncons i) [ inl e ↦ inl (e, refl) | inr j ↦ inr j ]

pub length-map {ℓ κ} :
    {A : Type ℓ} {B : Type κ} (f : A → B) (xs : List A) → length (map f xs) ≡ length xs
length-map f [] = refl
length-map f (x ∷ xs) = ap suc (length-map f xs)

-- What the program relies on of sort.Slice: the slice holds the elements that it held, as many.
pub record IsReordering {ℓ} {A : Type ℓ} (f : List A → List A) : Type ℓ where
  pub kept : (x : A) (xs : List A) → In x (f xs) → In x xs
  pub as_many : (xs : List A) → length (f xs) ≡ length xs

-- No element of the list is less than one before it.
abbrev pub IsAscending {ℓ} : {A : Type ℓ} → (A → A → Bool) → List A → Type ℓ
IsAscending lt [] = Unit
IsAscending lt (x ∷ xs) = All (λ y. lt y x ≡ false) xs × IsAscending lt xs

-- What the program relies on of sort.Slice where the test is an order: the slice holds the elements
-- that it held, as many, and ascends.
pub record IsSort {ℓ} {A : Type ℓ} (lt : A → A → Bool) (f : List A → List A) : Type ℓ where
  pub reordering : IsReordering f
  pub held : (x : A) (xs : List A) → In x xs → In x (f xs)
  pub ascending : (xs : List A) → IsAscending lt (f xs)

-- The element at a place of the list, with the proof that it is one.
pub record IsAt {ℓ} {A : Type ℓ} (xs : List A) (i : ℕ) : Type ℓ where
  pub value : A
  pub found : get_elem? xs i ≡ some value
  pub stands : In value xs

pub IsAt-lt {ℓ} : {A : Type ℓ} (xs : List A) (i : ℕ) → i < length xs → IsAt xs i
IsAt-lt [] i h = absurd (omega arith)
IsAt-lt (x ∷ xs) zero h = record { value = x; found = refl; stands = here }
IsAt-lt (x ∷ xs) (suc i) h =
    let rest = IsAt-lt xs i (omega arith) in
    record { value = rest.value; found = rest.found; stands = there rest.stands }
