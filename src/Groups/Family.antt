-- ===== src/Groups/Family.antt =====
-- internal/provider/quota_group.go: extractModelFamily, the name of the quota group of a model.
use llm_mux_fork.Prelude.{
  ℕ, ◌==◌, ◌≡◌, refl, ap, Bool, true, false, ◌||◌, if◌then◌else◌, Option, none, some, [], ◌∷◌, ◌++◌,
  ◌⊎◌, inl, inr, Text, txt, is_empty, to_lower, Bool-cases,
}

unfoldable pub is_delimiter : ℕ → Bool
is_delimiter c = c == b'-' || c == b'_' || c == b'.'

-- The loop: what stands before the first delimiter, or nothing where there is none.
unfoldable pub before_delimiter : Text → Option Text
unfolding is_delimiter
before_delimiter [] = none
before_delimiter (c ∷ s) =
    let rest = before_delimiter s in
    if is_delimiter c then some [] else (elim rest [ none ↦ none | some p ↦ some (c ∷ p) ])

unfoldable pub family_from : Text → Option Text → Text
family_from lower none = lower
family_from lower (some p) = if is_empty p then txt "" else p

unfoldable pub extract_model_family : Text → Text
unfolding family_from
extract_model_family model =
    if is_empty model
    then txt ""
    else (let lower = to_lower model in family_from lower (before_delimiter lower))

-- No letter of the text is a delimiter.
abbrev pub Plain : Text → Type 0
Plain [] = Unit
Plain (c ∷ s) = (is_delimiter c ≡ false) × Plain s

-- `p` is the part of the text before its first delimiter, or the whole text.
abbrev pub IsFamily : Text → Text → Type 0
IsFamily s p =
    Plain p × ((p ≡ s) ⊎ ((d : ℕ) × (rest : Text) × (s ≡ p ++ d ∷ rest) × (is_delimiter d ≡ true)))

abbrev Splits : Text → Option Text → Type 0
Splits s none = Plain s
Splits s (some p) =
    Plain p × ((d : ℕ) × (rest : Text) × (s ≡ p ++ d ∷ rest) × (is_delimiter d ≡ true))

Splits-cons :
    (c : ℕ) (s : Text) (o : Option Text)
    → is_delimiter c ≡ false
    → Splits s o
    → Splits (c ∷ s) (elim o [ none ↦ none | some p ↦ some (c ∷ p) ])
Splits-cons c s none plain h = (plain, h)
Splits-cons c s (some p) plain (h, (d, rest, e, delimits)) =
    ((plain, h), (d, rest, ap (◌∷◌ c) e, delimits))

before_delimiter-Splits : (s : Text) → Splits s (before_delimiter s)
unfolding before_delimiter
before_delimiter-Splits [] = tt
before_delimiter-Splits (c ∷ s) = elim (Bool-cases (is_delimiter c)) [
  | inl delimits ↦ rw delimits (tt, (c, s, refl, delimits))
  | inr plain ↦ rw plain (Splits-cons c s (before_delimiter s) plain (before_delimiter-Splits s))
]

family_from-IsFamily : (s : Text) (o : Option Text) → Splits s o → IsFamily s (family_from s o)
unfolding family_from is_empty
family_from-IsFamily s none h = (h, inl refl)
family_from-IsFamily s (some []) (h, found) = (h, inr found)
family_from-IsFamily s (some (c ∷ p)) (h, found) = (h, inr found)

-- The family of a model is the part of its name, in lower case, before the first of `-`, `_` and
-- `.`, or the whole of it.
pub extract_model_family-IsFamily :
    (model : Text) → IsFamily (to_lower model) (extract_model_family model)
unfolding extract_model_family is_empty to_lower
extract_model_family-IsFamily [] = (tt, inl refl)
extract_model_family-IsFamily (c ∷ model) =
    family_from-IsFamily _ _ (before_delimiter-Splits (to_lower (c ∷ model)))
