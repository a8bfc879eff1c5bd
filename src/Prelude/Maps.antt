-- ===== src/Prelude/Maps.antt =====
-- Go maps with text keys, as association lists: the order of the list is the order in which a
-- `range` visits the keys, which Go leaves open.
use mathlib.Core.Path.{◌≡◌, refl, ap}
use mathlib.Core.Logic.{inl, inr}
use mathlib.Core.List.{List, [], ◌∷◌}
use mathlib.Core.Option
use mathlib.Core.Option.{Option, none, some}
use native.Mathlib.Omega.{arith}
use llm_mux_fork.Prelude.Tests.{if◌then◌else◌, Bool-cases}
use llm_mux_fork.Prelude.Texts.{Text, text_eq, text_eq_iff, text_eq_refl}

abbrev pub Map {ℓ} : Type ℓ → Type ℓ
Map V = List (Text × V)

module _ {ℓ} {V : Type ℓ} where
  unfoldable pub lookup : Text → Map V → Option V
  lookup k [] = none
  lookup k ((j, v) ∷ m) = if text_eq j k then some v else lookup k m

  -- Each value changed in place.
  unfoldable pub map_values {κ} : {W : Type κ} → (V → W) → Map V → Map W
  map_values f [] = []
  map_values f ((j, v) ∷ m) = (j, f v) ∷ map_values f m

  -- `m[k] = v`
  unfoldable pub insert : Text → V → Map V → Map V
  insert k v [] = (k, v) ∷ []
  insert k v ((j, w) ∷ m) = if text_eq j k then (k, v) ∷ m else (j, w) ∷ insert k v m

  -- `delete(m, k)`
  unfoldable pub delete : Text → Map V → Map V
  delete k [] = []
  delete k ((j, w) ∷ m) = if text_eq j k then delete k m else (j, w) ∷ delete k m

  -- `m[k]`, with the zero value `d` of the type where the key is missing.
  unfoldable pub lookup_or : V → Text → Map V → V
  unfolding lookup
  lookup_or d k m = elim (lookup k m) [ none ↦ d | some v ↦ v ]

  -- A write through the pointer that is stored under the key.
  unfoldable pub adjust : (V → V) → Text → Map V → Map V
  adjust f k [] = []
  adjust f k ((j, w) ∷ m) = if text_eq j k then (j, f w) ∷ m else (j, w) ∷ adjust f k m

  -- No key comes twice.
  abbrev pub IsKeyed : Map V → Type ℓ
  IsKeyed [] = Unit
  IsKeyed ((k, v) ∷ m) = (lookup k m ≡ none) × IsKeyed m

  pub lookup-adjust :
      (f : V → V) (k j : Text) (m : Map V)
      → lookup j (adjust f k m) ≡ (if text_eq k j then Option.map f (lookup j m) else lookup j m)
  unfolding lookup adjust
  lookup-adjust f k j [] = ground arith
  lookup-adjust f k j ((i, w) ∷ m) =
      ground (arith, text_eq_iff k j, text_eq_iff i k, text_eq_iff i j, lookup-adjust f k j m)

  pub lookup-insert :
      (k j : Text) (v : V) (m : Map V)
      → lookup j (insert k v m) ≡ (if text_eq k j then some v else lookup j m)
  unfolding lookup insert
  lookup-insert k j v [] = refl
  lookup-insert k j v ((i, w) ∷ m) =
      ground (arith, text_eq_iff k j, text_eq_iff i k, text_eq_iff i j, lookup-insert k j v m)

  pub lookup-delete :
      (k j : Text) (m : Map V) → lookup j (delete k m) ≡ (if text_eq k j then none else lookup j m)
  unfolding lookup delete
  lookup-delete k j [] = ground arith
  lookup-delete k j ((i, w) ∷ m) =
      ground (arith, text_eq_iff k j, text_eq_iff i k, text_eq_iff i j, lookup-delete k j m)

  pub delete_absent : (k : Text) (m : Map V) → lookup k m ≡ none → delete k m ≡ m
  unfolding lookup delete
  delete_absent k [] h = refl
  delete_absent k ((j, v) ∷ m) h = elim (Bool-cases (text_eq j k)) [
    | inl same ↦ ground arith
    | inr other ↦ rw other (ap (◌∷◌ (j, v)) (delete_absent k m (ground arith)))
  ]

  pub delete_idem : (k : Text) (m : Map V) → delete k (delete k m) ≡ delete k m
  unfolding delete
  delete_idem k [] = refl
  delete_idem k ((j, v) ∷ m) = elim (Bool-cases (text_eq j k)) [
    | inl same ↦ rw same (delete_idem k m)
    | inr other ↦ rw (other, other) (ap (◌∷◌ (j, v)) (delete_idem k m))
  ]

  pub lookup-insert_self : (k : Text) (v : V) (m : Map V) → lookup k (insert k v m) ≡ some v
  lookup-insert_self k v m = simp (lookup-insert, text_eq_refl)

module _ {ℓ κ} {V : Type ℓ} {W : Type κ} (f : V → W) where
  pub lookup-map_values :
      (k : Text) (m : Map V) → lookup k (map_values f m) ≡ Option.map f (lookup k m)
  unfolding map_values lookup
  lookup-map_values k [] = refl
  lookup-map_values k ((j, v) ∷ m) = ground (arith, lookup-map_values k m)
