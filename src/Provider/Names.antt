-- ===== src/Provider/Names.antt =====
-- internal/provider/provider_selection.go: normalizeProviders, the list of providers of a request.
use llm_mux_fork.Prelude.{
  ◌≡◌, ◌≢◌, refl, text_eq_refl, All, sym, Bool, true, false, ◌||◌, if◌then◌else◌, List, [], ◌∷◌,
  Text, text_eq, text_eq_iff, is_empty, to_lower, trim_space, arith, Bool-cases, ◌⊎◌, inl, inr, In,
  here, there, subst,
}

-- `seen[p]`
unfoldable pub is_seen : Text → List Text → Bool
is_seen p [] = false
is_seen p (q ∷ seen) = text_eq q p || is_seen p seen

-- The loop, with the keys of `seen`.
unfoldable pub normalize_from : List Text → List Text → List Text
unfolding is_seen
normalize_from seen [] = []
normalize_from seen (provider ∷ providers) =
    let p = to_lower (trim_space provider) in
    let skipped = normalize_from seen providers in
    let rest = normalize_from (p ∷ seen) providers in
    if is_empty p || is_seen p seen then skipped else p ∷ rest

unfoldable pub normalize_providers : List Text → List Text
unfolding normalize_from
normalize_providers = normalize_from []

-- Each name stands once, and none is among `seen`.
abbrev DistinctFrom : List Text → List Text → Type 0
DistinctFrom seen [] = Unit
DistinctFrom seen (p ∷ ps) = (is_seen p seen ≡ false) × DistinctFrom (p ∷ seen) ps

normalize_from-DistinctFrom :
    (seen providers : List Text) → DistinctFrom seen (normalize_from seen providers)
unfolding normalize_from
normalize_from-DistinctFrom seen [] = tt
normalize_from-DistinctFrom seen (provider ∷ providers) =
    elim (Bool-cases (
      is_empty (to_lower (trim_space provider)) || is_seen (to_lower (trim_space provider)) seen)) [
        | inl skip ↦ rw skip (normalize_from-DistinctFrom seen providers)
        | inr taken ↦ rw taken (
          ground (arith, taken),
          normalize_from-DistinctFrom (to_lower (trim_space provider) ∷ seen) providers,
        )
      ]

is_seen-In : (p : Text) (ps : List Text) → is_seen p ps ≡ true → In p ps
unfolding is_seen
is_seen-In p [] h = absurd (cc h)
is_seen-In p (q ∷ ps) h = elim (Bool-cases (text_eq q p)) [
  | inl same ↦ subst (λ r. In p (r ∷ ps)) (sym ((text_eq_iff q p).0 same)) here
  | inr another ↦ there (is_seen-In p ps (ground (arith, h, another)))
]

In-nothing : {p : Text} {ps : List Text} → In p [] → In p ps
In-nothing i = elim i [ ]

taken_cases :
    (q p : Text) (seen rest : List Text)
    → In p rest ⊎ (is_seen p (q ∷ seen) ≡ true)
    → In p (q ∷ rest) ⊎ (is_seen p seen ≡ true)
unfolding is_seen
taken_cases q p seen rest (inl i) = inl (there i)
taken_cases q p seen rest (inr h) = elim (Bool-cases (text_eq q p)) [
  | inl same ↦ inl (subst (λ r. In p (r ∷ rest)) (sym ((text_eq_iff q p).0 same)) here)
  | inr another ↦ inr (ground (arith, h, another))
]

-- Every name that is asked for is in the list, or was seen before.
normalize_from-In :
    (seen providers : List Text) (provider : Text)
    → In provider providers
    → is_empty (to_lower (trim_space provider)) ≡ false
    → In (to_lower (trim_space provider)) (normalize_from seen providers)
      ⊎ (is_seen (to_lower (trim_space provider)) seen ≡ true)
unfolding normalize_from
normalize_from-In seen [] provider i named = elim i [ ]
normalize_from-In seen (q ∷ providers) provider here named =
    elim (Bool-cases (is_seen (to_lower (trim_space provider)) seen)) [
      | inl old ↦ inr old
      | inr new ↦ inl (rw (named, new) here)
    ]
normalize_from-In seen (q ∷ providers) provider (there i) named =
    elim (Bool-cases
      (is_empty (to_lower (trim_space q)) || is_seen (to_lower (trim_space q)) seen)) [
        | inl skip ↦ rw skip (normalize_from-In seen providers provider i named)
        | inr taken ↦ rw taken (
            taken_cases (to_lower (trim_space q)) (to_lower (trim_space provider)) seen _
              (normalize_from-In (to_lower (trim_space q) ∷ seen) providers provider i named))
      ]

-- Each name stands once.
abbrev pub IsDistinct : List Text → Type 0
IsDistinct [] = Unit
IsDistinct (p ∷ ps) = All (λ q. p ≢ q) ps × IsDistinct ps

In-is_seen : (p : Text) (ps : List Text) → In p ps → is_seen p ps ≡ true
unfolding is_seen
In-is_seen p [] i = elim i [ ]
In-is_seen p (q ∷ ps) here = rw text_eq_refl refl
In-is_seen p (q ∷ ps) (there i) = ground (arith, In-is_seen p ps i)

apart_from :
    (s : Text) (seen qs : List Text) → In s seen → DistinctFrom seen qs → All (λ q. s ≢ q) qs
apart_from s seen [] i d = tt
apart_from s seen (q ∷ qs) i d = (
  (λ e. let old = In-is_seen q seen (subst (λ t. In t seen) e i) in let new = d.0 in cc),
  apart_from s (q ∷ seen) qs (there i) d.1,
)

DistinctFrom-IsDistinct : (seen qs : List Text) → DistinctFrom seen qs → IsDistinct qs
DistinctFrom-IsDistinct seen [] d = tt
DistinctFrom-IsDistinct seen (q ∷ qs) d =
    (apart_from q (q ∷ seen) qs here d.1, DistinctFrom-IsDistinct (q ∷ seen) qs d.1)

-- What a name in the list is: not blank, and one that was asked for, in lower case and trimmed.
abbrev pub IsNormal : List Text → Text → Type 0
IsNormal providers q =
    (is_empty q ≡ false) × (p : Text) × In p providers × (q ≡ to_lower (trim_space p))

All-IsNormal :
    (p : Text) (providers qs : List Text)
    → All (IsNormal providers) qs
    → All (IsNormal (p ∷ providers)) qs
All-IsNormal p providers [] h = tt
All-IsNormal p providers (q ∷ qs) ((named, r, i, e), h) =
    ((named, r, there i, e), All-IsNormal p providers qs h)

normalize_from-IsNormal :
    (seen providers : List Text) → All (IsNormal providers) (normalize_from seen providers)
unfolding normalize_from
normalize_from-IsNormal seen [] = tt
normalize_from-IsNormal seen (p ∷ providers) =
    elim (Bool-cases
      (is_empty (to_lower (trim_space p)) || is_seen (to_lower (trim_space p)) seen)) [
        | inl skip ↦ rw skip (All-IsNormal p providers _ (normalize_from-IsNormal seen providers))
        | inr taken ↦ rw taken (
          (ground (arith, taken), p, here, refl),
          All-IsNormal p providers _
              (normalize_from-IsNormal (to_lower (trim_space p) ∷ seen) providers),
        )
      ]

-- The list of a request names each provider once; each name in it is not blank and is the lower-case
-- form, without the spaces around it, of one that is asked for; and each provider that is asked for, by
-- a name that is not blank, is in it.
pub normalize_providers_lem :
    (providers : List Text) (provider : Text)
    → In provider providers
    → is_empty (to_lower (trim_space provider)) ≡ false
    → IsDistinct (normalize_providers providers)
      × All (IsNormal providers) (normalize_providers providers)
      × In (to_lower (trim_space provider)) (normalize_providers providers)
unfolding normalize_providers
normalize_providers_lem providers provider i named = (
  DistinctFrom-IsDistinct [] _ (normalize_from-DistinctFrom [] providers),
  normalize_from-IsNormal [] providers,
  elim (normalize_from-In [] providers provider i named) [
    | inl found ↦ found
    | inr old ↦ In-nothing (is_seen-In _ [] old)
  ],
)
