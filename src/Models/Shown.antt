-- ===== src/Models/Shown.antt =====
-- internal/registry/model_prefix.go and ClientSupportsModel: a model's id that is shown with the name
-- of its provider is understood when it comes back.
use llm_mux_fork.Prelude.{ℕ, ◌≡◌, false, some, Text, txt, is_space, trim_space, ◌∷◌, ◌++◌, lookup}
use mathlib.Core.List.{reverse}
use llm_mux_fork.Models.Prefix.{split_bracket, provider_map, prefix_of_type}

-- The text starts and ends with a letter that is no white space.
pub record IsTrimmed (s : Text) : Type 0 where
  pub first : ℕ
  pub rest : Text
  pub starts : s ≡ first ∷ rest
  pub solid : is_space first ≡ false
  pub last : ℕ
  pub others : Text
  pub ends : reverse s ≡ last ∷ others
  pub firm : is_space last ≡ false

-- The two readings of an id behind the prefix of a type.
abbrev Reads : Text × Text → Type 0
Reads x =
    (id : Text)
    → (prefix_of_type x.0 ≡ b'[' ∷ (x.1 ++ txt "] "))
      × (split_bracket (b'[' ∷ ((x.1 ++ txt "] ") ++ id)) ≡ some (b'[' ∷ x.1, id))
      × (lookup (trim_space x.1) provider_map ≡ some x.0)
