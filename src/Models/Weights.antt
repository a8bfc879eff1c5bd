-- ===== src/Models/Weights.antt =====
-- internal/registry/model_registration.go: sums over the maps that RegisterClient ranges over. They
-- do not depend on the order, and a sum that only one id takes part in is that id's.
use mathlib.Core.Logic.{∥∥₁_elim}
use mathlib.Core.List.{Perm, Permᴰ}
use native.Mathlib.Nat.{ℕ_set}
use llm_mux_fork.Prelude.{
  ℕ, ◌+◌, ◌≡◌, refl, ap, ◌∙◌, Bool, false, Bool-cases, inl, inr, if◌then◌else◌, ◌==◌, Option, none,
  some, Text, txt, text_eq, text_eq_iff, is_empty, [], ◌∷◌, ◌++◌, List, Map, lookup, insert,
  lookup_or, lookup-insert, subst, sym, arith,
}
use llm_mux_fork.Models.Types.{provider_key}
use llm_mux_fork.Models.Reconcile.{count_ids, increment}
use llm_mux_fork.Models.Counts.{uses}

unfoldable pub weight {ℓ} : {A : Type ℓ} → (A → ℕ) → List A → ℕ
weight g [] = 0
weight g (x ∷ xs) = g x + weight g xs

weight-Permᴰ {ℓ} :
    {A : Type ℓ} (g : A → ℕ) {xs ys : List A} → Permᴰ xs ys → weight g xs ≡ weight g ys
unfolding weight
weight-Permᴰ g Permᴰ.nil = refl
weight-Permᴰ g (Permᴰ.cons e p) = omega (arith, ap g e, weight-Permᴰ g p)
weight-Permᴰ g (Permᴰ.swap e f) = omega (arith, ap g e, ap g f)
weight-Permᴰ g (Permᴰ.trans p q) = weight-Permᴰ g p ∙ weight-Permᴰ g q

pub weight-Perm {ℓ} :
    {A : Type ℓ} (g : A → ℕ) {xs ys : List A} → Perm xs ys → weight g xs ≡ weight g ys
weight-Perm g p = ∥∥₁_elim p (ℕ_set _ _) (weight-Permᴰ g)

-- The rest of a text after a prefix.
strip : Text → Text → Option Text
strip s [] = some s
strip [] (d ∷ p) = none
strip (c ∷ s) (d ∷ p) = let rest = strip s p in if c == d then rest else none

-- Whether an id is the one, if there is one.
abbrev pub is_id : Option Text → Text → Bool
is_id none id = false
is_id (some j) id = text_eq id j

text_eq-append : (p id k : Text) → text_eq (p ++ id) k ≡ is_id (strip k p) id
unfolding text_eq strip
text_eq-append [] id k = refl
text_eq-append (c ∷ p) id [] = refl
text_eq-append (c ∷ p) id (d ∷ k) = ground (arith, text_eq-append p id k)

-- The id of the model that a provider registers under the key.
pub id_of_key : Text → Text → Option Text
id_of_key [] k = some k
id_of_key (c ∷ p) k = strip k ((c ∷ p) ++ txt ":")

append_assoc : (xs ys zs : Text) → (xs ++ ys) ++ zs ≡ xs ++ (ys ++ zs)
append_assoc [] ys zs = refl
append_assoc (x ∷ xs) ys zs = ap (◌∷◌ x) (append_assoc xs ys zs)

pub text_eq-provider_key :
    (provider k id : Text) → text_eq (provider_key provider id) k ≡ is_id (id_of_key provider k) id
unfolding provider_key id_of_key is_empty
text_eq-provider_key [] k id = refl
text_eq-provider_key (c ∷ p) k id =
    subst (λ s. text_eq s k ≡ is_id (strip k ((c ∷ p) ++ txt ":")) id)
      (append_assoc (c ∷ p) (txt ":") id) (text_eq-append ((c ∷ p) ++ txt ":") id k)

-- How often an id comes.
unfoldable pub occurrences : Text → List Text → ℕ
occurrences id [] = 0
occurrences id (j ∷ ids) = (if text_eq j id then 1 else 0) + occurrences id ids

-- No key comes twice.
abbrev pub IsDistinct : Map ℕ → Type 0
IsDistinct [] = Unit
IsDistinct ((id, n) ∷ m) = (lookup id m ≡ none) × IsDistinct m

-- What an id contributes, for the one that the key belongs to.
abbrev pub share : Option Text → (Text → ℕ → ℕ) → Text × ℕ → ℕ
share o g x = if is_id o x.0 then g x.0 x.1 else 0

weight-none : (g : Text → ℕ → ℕ) (m : Map ℕ) → weight (share none g) m ≡ 0
unfolding weight
weight-none g [] = refl
weight-none g (x ∷ m) = omega (arith, weight-none g m)

pub lookup_or-none : (j : Text) (m : Map ℕ) → lookup j m ≡ none → lookup_or 0 j m ≡ 0
unfolding lookup_or
lookup_or-none j m h = ground arith

lookup_or_cons :
    (id j : Text) (n : ℕ) (m : Map ℕ)
    → lookup_or 0 j ((id, n) ∷ m) ≡ (if text_eq id j then n else lookup_or 0 j m)
unfolding lookup_or lookup
lookup_or_cons id j n m = ground arith

lookup_or-insert :
    (id j : Text) (n : ℕ) (m : Map ℕ)
    → lookup_or 0 j (insert id n m) ≡ (if text_eq id j then n else lookup_or 0 j m)
unfolding lookup_or
lookup_or-insert id j n m = ground (arith, lookup-insert id j n m)

weight_absent :
    (g : Text → ℕ → ℕ) (j : Text) (m : Map ℕ) → lookup j m ≡ none → weight (share (some j) g) m ≡ 0
unfolding weight lookup
weight_absent g j [] h = refl
weight_absent g j ((id, n) ∷ m) h = ground (arith, weight_absent g j m)

weight_one :
    (g : Text → ℕ → ℕ) (j : Text) (m : Map ℕ)
    → IsDistinct m
    → (lookup j m ≡ none → g j 0 ≡ 0)
    → weight (share (some j) g) m ≡ g j (lookup_or 0 j m)
unfolding weight
weight_one g j [] d z =
    let gone : lookup {V = ℕ} j [] ≡ none = unfold lookup in refl in
    rw (lookup_or-none j [] gone) (sym (z gone))
weight_one g j ((id, n) ∷ m) d z = elim (Bool-cases (text_eq id j)) [
  | inr other ↦
      let z' : lookup j m ≡ none → g j 0 ≡ 0 = λ h. z (unfold lookup in ground arith) in
      rw (other, lookup_or_cons id j n m) (rw other (omega (arith, weight_one g j m d.1 z')))
  | inl same ↦
      let e = (text_eq_iff id j).0 same in
      let gone : lookup j m ≡ none = subst (λ i. lookup i m ≡ none) e d.0 in
      rw (lookup_or_cons id j n m) (rw (same, weight_absent g j m gone) (rw e (omega arith)))
]

-- What the one id contributes, given how often it comes.
abbrev pub share_of : Option Text → (Text → ℕ → ℕ) → Map ℕ → ℕ
share_of none g m = 0
share_of (some j) g m = g j (lookup_or 0 j m)

pub weight-share :
    (o : Option Text) (g : Text → ℕ → ℕ) (m : Map ℕ)
    → IsDistinct m
    → ((j : Text) → lookup j m ≡ none → g j 0 ≡ 0)
    → weight (share o g) m ≡ share_of o g m
weight-share none g m d z = weight-none g m
weight-share (some j) g m d z = weight_one g j m d (z j)

IsDistinct-insert : (id : Text) (n : ℕ) (m : Map ℕ) → IsDistinct m → IsDistinct (insert id n m)
unfolding insert
IsDistinct-insert id n [] d = (unfold lookup in refl, tt)
IsDistinct-insert id n ((j, k) ∷ m) d = elim (Bool-cases (text_eq j id)) [
  | inl same ↦ rw same (subst (λ i. lookup i m ≡ none) ((text_eq_iff j id).0 same) d.0, d.1)
  | inr other ↦ rw other (
    rw lookup-insert (ground (arith, d.0, text_eq_iff id j, text_eq_iff j id)),
    IsDistinct-insert id n m d.1,
  )
]

pub IsDistinct-count_ids :
    (ids : List Text) (m : Map ℕ) → IsDistinct m → IsDistinct (count_ids ids m)
unfolding count_ids
IsDistinct-count_ids [] m d = d
IsDistinct-count_ids (id ∷ ids) m d =
    IsDistinct-count_ids ids (increment id m)
      (unfold increment in IsDistinct-insert id (lookup_or 0 id m + 1) m d)

lookup_or-increment :
    (id j : Text) (m : Map ℕ)
    → lookup_or 0 j (increment id m) ≡ lookup_or 0 j m + (if text_eq id j then 1 else 0)
unfolding increment
lookup_or-increment id j m = rw lookup_or-insert (ground (arith, text_eq_iff id j))

pub lookup_or-count_ids :
    (j : Text) (ids : List Text) (m : Map ℕ)
    → lookup_or 0 j (count_ids ids m) ≡ lookup_or 0 j m + occurrences j ids
unfolding count_ids occurrences
lookup_or-count_ids j [] m = omega arith
lookup_or-count_ids j (id ∷ ids) m =
    omega (arith, lookup_or-count_ids j ids (increment id m), lookup_or-increment id j m)

abbrev pub occurrences_of : Option Text → List Text → ℕ
occurrences_of none ids = 0
occurrences_of (some j) ids = occurrences j ids

-- A provider's uses of a key are the occurrences of the one id.
pub uses-occurrences_of :
    (provider k : Text) (ids : List Text)
    → uses provider k ids ≡ occurrences_of (id_of_key provider k) ids
unfolding uses
uses-occurrences_of provider k [] = by_id (id_of_key provider k)
  where
    by_id : (o : Option Text) → 0 ≡ occurrences_of o []
    by_id none = refl
    by_id (some j) = unfold occurrences in refl
uses-occurrences_of provider k (id ∷ ids) =
    rw (text_eq-provider_key provider k id, uses-occurrences_of provider k ids)
      (by_id (id_of_key provider k))
  where
    by_id :
        (o : Option Text)
        → (if is_id o id then 1 else 0) + occurrences_of o ids ≡ occurrences_of o (id ∷ ids)
    by_id none = omega arith
    by_id (some j) = unfold occurrences in refl
