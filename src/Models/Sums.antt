-- ===== src/Models/Sums.antt =====
-- internal/registry: sums over a map, entry by entry, and what a change of one entry does to them.
use llm_mux_fork.Prelude.{
  ℕ, ◌+◌, ◌≡◌, refl, subst, false, Bool-cases, inl, inr, Option, none, some, Text, text_eq,
  text_eq_iff, [], ◌∷◌, Map, lookup, IsKeyed, insert, delete, lookup-insert, lookup-delete,
  delete_absent, arith,
}
use llm_mux_fork.Models.Weights.{weight}

module _ {ℓ} {V : Type ℓ} where
  abbrev pub at : (Text × V → ℕ) → Text → Option V → ℕ
  at g c none = 0
  at g c (some v) = g (c, v)

  -- A sum over a map is that over the other keys and the part of the key.
  pub weight-delete :
      (g : Text × V → ℕ) (c : Text) (m : Map V)
      → IsKeyed m
      → weight g m ≡ at g c (lookup c m) + weight g (delete c m)
  unfolding lookup delete weight
  weight-delete g c [] d = omega arith
  weight-delete g c ((j, v) ∷ m) d = elim (Bool-cases (text_eq j c)) [
    | inr other ↦ rw other (omega (arith, weight-delete g c m d.1))
    | inl same ↦
        let e = (text_eq_iff j c).0 same in
        rw (same, delete_absent c m (subst (λ i. lookup i m ≡ none) e d.0)) (rw e refl)
  ]

  pub weight-insert :
      (g : Text × V → ℕ) (c : Text) (v : V) (m : Map V)
      → IsKeyed m
      → weight g (insert c v m) ≡ g (c, v) + weight g (delete c m)
  unfolding insert delete weight
  weight-insert g c v [] d = refl
  weight-insert g c v ((j, w) ∷ m) d = elim (Bool-cases (text_eq j c)) [
    | inr other ↦ rw other (omega (arith, weight-insert g c v m d.1))
    | inl same ↦
        let e = (text_eq_iff j c).0 same in
        rw (same, delete_absent c m (subst (λ i. lookup i m ≡ none) e d.0)) refl
  ]

  -- Without the key, only what the other keys contribute matters.
  pub weight-delete_cong :
      (f g : Text × V → ℕ) (c : Text) (m : Map V)
      → ((j : Text) (v : V) → text_eq c j ≡ false → f (j, v) ≡ g (j, v))
      → weight f (delete c m) ≡ weight g (delete c m)
  unfolding delete weight
  weight-delete_cong f g c [] h = refl
  weight-delete_cong f g c ((j, v) ∷ m) h = elim (Bool-cases (text_eq j c)) [
    | inl same ↦ rw same (weight-delete_cong f g c m h)
    | inr other ↦ rw other (
        omega (
          arith,
          h j v (ground (arith, text_eq_iff j c, text_eq_iff c j)),
          weight-delete_cong f g c m h,
        ))
  ]

  pub IsKeyed-insert : (c : Text) (v : V) (m : Map V) → IsKeyed m → IsKeyed (insert c v m)
  unfolding insert
  IsKeyed-insert c v [] d = (unfold lookup in refl, tt)
  IsKeyed-insert c v ((j, w) ∷ m) d = elim (Bool-cases (text_eq j c)) [
    | inl same ↦ rw same (subst (λ i. lookup i m ≡ none) ((text_eq_iff j c).0 same) d.0, d.1)
    | inr other ↦ rw other (
      rw lookup-insert (ground (arith, d.0, text_eq_iff c j, text_eq_iff j c)),
      IsKeyed-insert c v m d.1,
    )
  ]

  pub IsKeyed-delete : (c : Text) (m : Map V) → IsKeyed m → IsKeyed (delete c m)
  unfolding delete
  IsKeyed-delete c [] d = tt
  IsKeyed-delete c ((j, w) ∷ m) d = elim (Bool-cases (text_eq j c)) [
    | inl same ↦ rw same (IsKeyed-delete c m d.1)
    | inr other ↦ rw other (ground (arith, d.0, lookup-delete c j m), IsKeyed-delete c m d.1)
  ]
