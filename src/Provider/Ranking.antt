-- ===== src/Provider/Ranking.antt =====
-- internal/provider/provider_stats.go and provider_selection.go: the order that SortByScore and
-- selectProviders make.
use mathlib.Core.List.{reverse, reverse-append, reverse-reverse, append_assoc, append-nil}
use llm_mux_fork.Prelude.{
  ℕ, ◌≤◌, ◌<◌, subst, ◌≡◌, ◌≢◌, refl, sym, ◌∙◌, ap, ltb, leb, ◌==◌, Bool, true, false, not, ◌||◌,
  Bool-cases, inl, inr, Text, List, [], ◌∷◌, ◌++◌, length, keep, All, arith,
}
use llm_mux_fork.Provider.Stats.{
  sink, sink_all, all_default, sort_by_score, select_from, select_providers,
}

module _ (score : Text → ℕ) where
  -- The scores fall along the list.
  abbrev pub IsFalling : List Text → Type 0
  IsFalling [] = Unit
  IsFalling (p ∷ ps) = All (λ q. score q ≤ score p) ps × IsFalling ps

  -- The scores rise along the list.
  abbrev IsRising : List Text → Type 0
  IsRising [] = Unit
  IsRising (p ∷ ps) = All (λ q. score p ≤ score q) ps × IsRising ps

  -- The providers of one score, in their order.
  abbrev pub of_score : ℕ → List Text → List Text
  of_score s = keep (λ p. score p == s)

  All-le :
      (m n : ℕ) (ps : List Text) → m ≤ n → All (λ q. n ≤ score q) ps → All (λ q. m ≤ score q) ps
  All-le m n [] h all = tt
  All-le m n (p ∷ ps) h all = (omega (arith, all.0), All-le m n ps h all.1)

  All-sink :
      (n : ℕ) (p : Text) (ps : List Text)
      → n ≤ score p
      → All (λ q. n ≤ score q) ps
      → All (λ q. n ≤ score q) (sink score p ps)
  unfolding sink
  All-sink n p [] h all = (h, tt)
  All-sink n p (q ∷ qs) h all = elim (Bool-cases (ltb (score q) (score p))) [
    | inl lower ↦ rw lower (all.0, All-sink n p qs h all.1)
    | inr stays ↦ rw stays (h, all)
  ]

  sink-IsRising : (p : Text) (ps : List Text) → IsRising ps → IsRising (sink score p ps)
  unfolding sink
  sink-IsRising p [] r = (tt, tt)
  sink-IsRising p (q ∷ qs) r = elim (Bool-cases (ltb (score q) (score p))) [
    | inl lower ↦ rw lower (All-sink (score q) p qs (ground arith) r.0, sink-IsRising p qs r.1)
    | inr stays ↦ rw stays ((ground arith, All-le (score p) (score q) qs (ground arith) r.0), r)
  ]

  sink_all-IsRising : (ps acc : List Text) → IsRising acc → IsRising (sink_all score acc ps)
  unfolding sink_all
  sink_all-IsRising [] acc r = r
  sink_all-IsRising (p ∷ ps) acc r = sink_all-IsRising ps (sink score p acc) (sink-IsRising p acc r)

  of_score-sink :
      (s : ℕ) (p : Text) (ps : List Text) → of_score s (sink score p ps) ≡ of_score s (p ∷ ps)
  unfolding sink
  of_score-sink s p [] = refl
  of_score-sink s p (q ∷ qs) = elim (Bool-cases (ltb (score q) (score p))) [
    | inr stays ↦ rw stays refl
    | inl lower ↦ rw lower (ground (arith, of_score-sink s p qs))
  ]

  keep-append : (s : ℕ) (xs ys : List Text) → of_score s (xs ++ ys) ≡ of_score s xs ++ of_score s ys
  keep-append s [] ys = refl
  keep-append s (x ∷ xs) ys = ground (arith, keep-append s xs ys)

  keep-reverse : (s : ℕ) (xs : List Text) → of_score s (reverse xs) ≡ reverse (of_score s xs)
  keep-reverse s [] = refl
  keep-reverse s (x ∷ xs) =
      ap (of_score s) (reverse-append (x ∷ []) xs)
      ∙ keep-append s (reverse xs) (x ∷ [])
      ∙ elim (Bool-cases (score x == s)) [
        | inl here ↦ rw (here, keep-reverse s xs) (sym (reverse-append (x ∷ []) (of_score s xs)))
        | inr other ↦ rw (other, keep-reverse s xs) (append-nil _)
      ]

  of_score-sink_all :
      (s : ℕ) (ps acc : List Text)
      → of_score s (sink_all score acc ps) ≡ reverse (of_score s ps) ++ of_score s acc
  unfolding sink_all
  of_score-sink_all s [] acc = refl
  of_score-sink_all s (p ∷ ps) acc =
      of_score-sink_all s ps (sink score p acc)
      ∙ ap (λ xs. reverse (of_score s ps) ++ xs) (of_score-sink s p acc)
      ∙ elim (Bool-cases (score p == s)) [
        | inl here ↦ rw here (
            sym (append_assoc (reverse (of_score s ps)) (p ∷ []) (of_score s acc))
            ∙ ap (λ xs. xs ++ of_score s acc) (sym (reverse-append (p ∷ []) (of_score s ps))))
        | inr other ↦ rw other refl
      ]

  IsFalling-append_one :
      (ps : List Text) (p : Text)
      → IsFalling ps
      → All (λ q. score p ≤ score q) ps
      → IsFalling (ps ++ (p ∷ []))
  IsFalling-append_one [] p f h = (tt, tt)
  IsFalling-append_one (q ∷ qs) p f h = (below qs f.0, IsFalling-append_one qs p f.1 h.1)
    where
      below :
          (rs : List Text)
          → All (λ r. score r ≤ score q) rs
          → All (λ r. score r ≤ score q) (rs ++ (p ∷ []))
      below [] g = (h.0, tt)
      below (r ∷ rs) g = (g.0, below rs g.1)

  All-append :
      (n : ℕ) (xs ys : List Text)
      → All (λ q. n ≤ score q) xs
      → All (λ q. n ≤ score q) ys
      → All (λ q. n ≤ score q) (xs ++ ys)
  All-append n [] ys h k = k
  All-append n (x ∷ xs) ys h k = (h.0, All-append n xs ys h.1 k)

  All-reverse :
      (n : ℕ) (xs : List Text) → All (λ q. n ≤ score q) xs → All (λ q. n ≤ score q) (reverse xs)
  All-reverse n [] h = tt
  All-reverse n (x ∷ xs) h =
      subst (All (λ q. n ≤ score q)) (sym (reverse-append (x ∷ []) xs))
        (All-append n (reverse xs) (x ∷ []) (All-reverse n xs h.1) (h.0, tt))

  reverse-IsFalling : (ps : List Text) → IsRising ps → IsFalling (reverse ps)
  reverse-IsFalling [] r = tt
  reverse-IsFalling (p ∷ ps) r = subst IsFalling (sym (reverse-append (p ∷ []) ps)) (
      IsFalling-append_one (reverse ps) p (reverse-IsFalling ps r.1) (All-reverse (score p) ps r.0))

  default-IsFalling : (ps : List Text) → all_default score ps ≡ true → IsFalling ps
  unfolding all_default
  default-IsFalling [] h = tt
  default-IsFalling (p ∷ ps) h = (level ps (ground arith), default-IsFalling ps (ground arith))
    where
      level : (qs : List Text) → all_default score qs ≡ true → All (λ q. score q ≤ score p) qs
      level [] g = tt
      level (q ∷ qs) g = (ground arith, level qs (ground arith))

  short-IsFalling : (ps : List Text) → leb (length ps) 1 ≡ true → IsFalling ps
  short-IsFalling [] h = tt
  short-IsFalling (p ∷ []) h = (tt, tt)
  short-IsFalling (p ∷ q ∷ ps) h = absurd (ground arith)

  -- SortByScore puts the providers in the order of falling scores, keeps each of them as often as it
  -- comes, and keeps the order of those of one score, on the path that leaves the list alone, too.
  pub sort_by_score_lem :
      (s : ℕ) (providers : List Text)
      → IsFalling (sort_by_score score providers)
        × (of_score s (sort_by_score score providers) ≡ of_score s providers)
  unfolding sort_by_score
  sort_by_score_lem s ps = elim (Bool-cases (leb (length ps) 1 || all_default score ps)) [
    | inl alone ↦ rw alone (by_case (leb (length ps) 1) refl alone, refl)
    | inr sorted ↦ rw sorted (
      reverse-IsFalling (sink_all score [] ps) (sink_all-IsRising ps [] tt),
      keep-reverse s (sink_all score [] ps)
          ∙ ap reverse (of_score-sink_all s ps [] ∙ append-nil _)
          ∙ reverse-reverse (of_score s ps),
    )
  ]
    where
      by_case :
          (b : Bool) → leb (length ps) 1 ≡ b → (b || all_default score ps) ≡ true → IsFalling ps
      by_case true e h = short-IsFalling ps e
      by_case false e h = default-IsFalling ps h

  select_several :
      (is_open : Text → Bool) (providers : List Text)
      → 1 < length providers
      → select_providers is_open score providers
        ≡ select_from score providers (keep (λ p. not (is_open p)) providers)
  unfolding select_providers
  select_several is_open ps many = rw (several ps many) refl
    where
      several : (ps : List Text) → 1 < length ps → leb (length ps) 1 ≡ false
      several ps h = ground arith

  -- Where several providers are given and the breaker of one is not open, selectProviders returns those
  -- with a breaker that is not open, in the order of falling scores and, at one score, in the order given.
  pub select_providers_lem :
      (is_open : Text → Bool) (s : ℕ) (providers : List Text)
      → 1 < length providers
      → keep (λ p. not (is_open p)) providers ≢ []
      → IsFalling (select_providers is_open score providers)
        × (of_score s (select_providers is_open score providers)
            ≡ of_score s (keep (λ p. not (is_open p)) providers))
  select_providers_lem is_open s ps many some_closed =
      rw (select_several is_open ps many)
        (closed_first (keep (λ p. not (is_open p)) ps) some_closed)
    where
      closed_first :
          (closed : List Text)
          → closed ≢ []
          → IsFalling (select_from score ps closed)
            × (of_score s (select_from score ps closed) ≡ of_score s closed)
      closed_first [] ne = absurd (ne refl)
      closed_first (p ∷ closed) ne = unfold select_from in sort_by_score_lem s (p ∷ closed)
