-- ===== src/Quota/Chosen.antt =====
-- internal/provider/quota_manager.go: what the two selections of QuotaManager choose.
use llm_mux_fork.Prelude.{
  ℕ, zero, suc, ◌+◌, ◌≤◌, ◌<◌, ◌≡◌, refl, ◌∙◌, subst, ltb, ltb_ℤ, pos, add_ℤ, Bool-cases, inl, inr,
  Option-cases, Option, some, List, [], ◌∷◌, ◌++◌, length, length-append, get_elem?, Map, All,
  All-In, IsAt-lt, tests, arith,
}
use llm_mux_fork.Provider.Types.{Auth}
use llm_mux_fork.Quota.State.{AuthQuotaState}
use llm_mux_fork.Quota.Select.{
  Scored, similar_count, auth_at, choose_similar, PriorityGroup, new_group, group_one, group_all,
  is_idle, first_idle, idle_in_groups, random_in_last, fill_first_from,
}

-- What the program relies on of rand.IntN.
pub record IsRandom (random : ℕ → ℕ) : Type 0 where
  pub below : (n : ℕ) → 0 < n → random n < n

-- A credential is chosen that has the property.
abbrev pub Chooses : (Auth → Type 0) → Option Auth → Type 0
Chooses P o = (a : Auth) × (o ≡ some a) × P a

abbrev pub Holds : (Auth → Type 0) → List Scored → Type 0
Holds P = All (λ c. P c.0)

similar_count-le : (n : ℕ) (best : Scored) (cs : List Scored) → similar_count n best cs ≤ length cs
unfolding similar_count
similar_count-le zero best cs = omega arith
similar_count-le (suc n) best [] = omega arith
similar_count-le (suc n) best (c ∷ cs) = ground (arith, similar_count-le n best cs)

auth_at_found :
    (i : ℕ) (cs : List Scored) (c : Scored) → get_elem? cs i ≡ some c → auth_at i cs ≡ some c.0
unfolding auth_at
auth_at_found i cs c e = ground arith

auth_at-Chooses :
    (P : Auth → Type 0) (i : ℕ) (cs : List Scored)
    → Holds P cs
    → i < length cs
    → Chooses P (auth_at i cs)
auth_at-Chooses P i cs all h =
    let at = IsAt-lt cs i h in
    (at.value.0, auth_at_found i cs at.value at.found, All-In (λ c. P c.0) cs all at.stands)

first_idle-Chooses :
    (P : Auth → Type 0) (states : Map AuthQuotaState) (auths : List Auth) (a : Auth)
    → All P auths
    → first_idle states auths ≡ some a
    → P a
unfolding first_idle
first_idle-Chooses P states [] a all e = cc
first_idle-Chooses P states (b ∷ auths) a all e = elim (Bool-cases (is_idle states b)) [
  | inl idle ↦ let same : b ≡ a = ground arith in subst P same all.0
  | inr busy ↦ first_idle-Chooses P states auths a all.1 (ground arith)
]

-- A group holds credentials with the property, at least one.
pub record IsGroup (P : Auth → Type 0) (g : PriorityGroup) : Type 0 where
  pub inside : All P g.auths
  pub filled : 0 < length g.auths

All-append_one :
    (P : Auth → Type 0) (xs : List Auth) (x : Auth) → All P xs → P x → All P (xs ++ (x ∷ []))
All-append_one P [] x h p = (p, tt)
All-append_one P (y ∷ xs) x h p = (h.0, All-append_one P xs x h.1 p)

new_group-IsGroup : (P : Auth → Type 0) (c : Scored) → P c.0 → IsGroup P (new_group c)
unfolding new_group
new_group-IsGroup P c p = record { inside = (p, tt); filled = omega arith }

group_one-IsGroup :
    (P : Auth → Type 0) (gs : List PriorityGroup) (c : Scored)
    → All (IsGroup P) gs
    → P c.0
    → All (IsGroup P) (group_one gs c) × (0 < length (group_one gs c))
unfolding group_one
group_one-IsGroup P [] c all p = ((new_group-IsGroup P c p, tt), omega arith)
group_one-IsGroup P (g ∷ gs) c all p = elim (Bool-cases (ltb_ℤ (add_ℤ g.priority (pos 100)) c.1)) [
  | inl apart ↦ rw apart ((new_group-IsGroup P c p, all), omega arith)
  | inr near ↦ rw near ((joined, all.1), omega arith)
]
  where
    joined : IsGroup P (record g { auths = g.auths ++ (c.0 ∷ []) })
    joined = record {
      inside = All-append_one P g.auths c.0 all.0.inside p;
      filled = omega (arith, length-append g.auths (c.0 ∷ []));
    }

pub group_all-IsGroup :
    (P : Auth → Type 0) (gs : List PriorityGroup) (cs : List Scored)
    → All (IsGroup P) gs
    → Holds P cs
    → 0 < length gs + length cs
    → All (IsGroup P) (group_all gs cs) × (0 < length (group_all gs cs))
unfolding group_all
group_all-IsGroup P gs [] all h n = (all, omega arith)
group_all-IsGroup P gs (c ∷ cs) all h n =
    let (all', n') = group_one-IsGroup P gs c all h.0 in
    group_all-IsGroup P (group_one gs c) cs all' h.1 (omega arith)

idle_in_groups-Chooses :
    (P : Auth → Type 0) (states : Map AuthQuotaState) (gs : List PriorityGroup) (a : Auth)
    → All (IsGroup P) gs
    → idle_in_groups states gs ≡ some a
    → P a
unfolding idle_in_groups
idle_in_groups-Chooses P states [] a all e = cc
idle_in_groups-Chooses P states (g ∷ gs) a all e = elim (Option-cases (idle_in_groups states gs)) [
  | inl none_before ↦ first_idle-Chooses P states g.auths a all.0.inside (ground arith)
  | inr (b, before) ↦ idle_in_groups-Chooses P states gs a all.1 (before ∙ ground arith)
]

module _ (random : ℕ → ℕ) (ranges : IsRandom random) where
  pub choose_similar-Chooses :
      (P : Auth → Type 0) (cs : List Scored)
      → Holds P cs
      → 0 < length cs
      → Chooses P (choose_similar random cs)
  unfolding choose_similar
  choose_similar-Chooses P [] all n = absurd (omega arith)
  choose_similar-Chooses P (c ∷ cs) all n = elim (Bool-cases (ltb 1 (similar_count 3 c (c ∷ cs)))) [
    | inl several ↦ rw several (
        auth_at-Chooses P (random (similar_count 3 c (c ∷ cs))) (c ∷ cs) all (
          omega (
            tests,
            similar_count-le 3 c (c ∷ cs),
            ranges.below (similar_count 3 c (c ∷ cs)) (omega (tests, several)),
          )))
    | inr best ↦ rw best (c.0, refl, all.0)
  ]

  random_in_last-Chooses :
      (P : Auth → Type 0) (gs : List PriorityGroup)
      → All (IsGroup P) gs
      → 0 < length gs
      → Chooses P (random_in_last random gs)
  unfolding random_in_last
  random_in_last-Chooses P [] all n = absurd (omega arith)
  random_in_last-Chooses P (g ∷ gs) all n =
      let at =
        IsAt-lt g.auths (random (length g.auths)) (ranges.below (length g.auths) all.0.filled) in
      (at.value, at.found, All-In P g.auths all.0.inside at.stands)

  pub fill_first_from-Chooses :
      (P : Auth → Type 0) (states : Map AuthQuotaState) (gs : List PriorityGroup)
      → All (IsGroup P) gs
      → 0 < length gs
      → Chooses P (fill_first_from random states gs)
  unfolding fill_first_from
  fill_first_from-Chooses P states gs all n = elim (Option-cases (idle_in_groups states gs)) [
    | inl busy ↦ let (b, e, p) = random_in_last-Chooses P gs all n in (b, ground arith, p)
    | inr (a, idle) ↦ (a, ground arith, idle_in_groups-Chooses P states gs a all idle)
  ]
