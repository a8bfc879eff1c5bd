-- ===== src/Quota/Select.antt =====
-- internal/provider/quota_manager.go: QuotaManager.Pick and cleanup. The score of a
-- credential (Score of its strategy, which computes in floats and asks a rate limiter), sort.Slice and
-- the random source are arguments.
use llm_mux_fork.Prelude.{
  ℕ, ◌+◌, ◌*◌, ltb, ◌==◌, ltb_ℤ, ℤ, pos, add_ℤ, zero, suc, Bool, true, not, ◌&&◌, ◌||◌,
  if◌then◌else◌, Option, none, some, Text, List, [], ◌∷◌, ◌++◌, length, get_elem?, map, Map, lookup,
}
use llm_mux_fork.Clock.{Time, after, sub, to_time, hour}
use llm_mux_fork.Provider.Types.{Auth}
use llm_mux_fork.Groups.Resolve.{Resolvers}
use llm_mux_fork.Sticky.Store.{StickyStore, get_key, set_key}
use llm_mux_fork.Legacy.Select.{sticky_auth, pick_key}
use llm_mux_fork.Quota.Config.{ProviderQuotaConfig, get_provider_quota_config}
use llm_mux_fork.Quota.State.{AuthQuotaState, Strategy, get_strategy}
use llm_mux_fork.Quota.Manager.{
  get_cooldown_until, increment_active, filter_available, RetryError, build_retry_error,
}

-- A credential with its priority; a lower one is better.
abbrev pub Scored : Type 0
Scored = Auth × ℤ

-- `a.priority - b.priority < limit`, which stays within an int64.
abbrev pub within : ℤ → Scored → Scored → Bool
within limit a b = ltb_ℤ a.1 (add_ℤ b.1 limit)

unfoldable pub is_better : Scored → Scored → Bool
is_better a b = ltb_ℤ a.1 b.1

-- How many of the first of them are within 100 of the best.
unfoldable pub similar_count : ℕ → Scored → List Scored → ℕ
similar_count zero best cs = 0
similar_count (suc n) best [] = 0
similar_count (suc n) best (c ∷ cs) =
    (if within (pos 100) c best then 1 else 0) + similar_count n best cs

unfoldable pub auth_at : ℕ → List Scored → Option Auth
auth_at i cs = elim (get_elem? cs i) [ none ↦ none | some c ↦ some c.0 ]

-- `random n` is below n.
module _ (random : ℕ → ℕ) where
  unfoldable pub choose_similar : List Scored → Option Auth
  unfolding similar_count auth_at
  choose_similar [] = none
  choose_similar (c ∷ cs) =
      let n = similar_count 3 c (c ∷ cs) in
      if ltb 1 n then auth_at (random n) (c ∷ cs) else some c.0

-- The groups of selectWithFillFirst, the last one first.
pub record PriorityGroup : Type 0 where
  pub priority : ℤ
  pub auths : List Auth

unfoldable pub new_group : Scored → PriorityGroup
new_group c = record { priority = c.1; auths = c.0 ∷ [] }

unfoldable pub group_one : List PriorityGroup → Scored → List PriorityGroup
unfolding new_group
group_one [] c = new_group c ∷ []
group_one (g ∷ gs) c =
    if ltb_ℤ (add_ℤ g.priority (pos 100)) c.1
    then new_group c ∷ g ∷ gs
    else record g { auths = g.auths ++ (c.0 ∷ []) } ∷ gs

unfoldable pub group_all : List PriorityGroup → List Scored → List PriorityGroup
unfolding group_one
group_all gs [] = gs
group_all gs (c ∷ cs) = group_all (group_one gs c) cs

unfoldable pub is_idle : Map AuthQuotaState → Auth → Bool
is_idle states a = elim (lookup a.id states) [ none ↦ true | some s ↦ s.active_requests == 0 ]

unfoldable pub first_idle : Map AuthQuotaState → List Auth → Option Auth
unfolding is_idle
first_idle states [] = none
first_idle states (a ∷ auths) =
    let rest = first_idle states auths in if is_idle states a then some a else rest

-- The first credential that is idle, in the order of the groups.
unfoldable pub idle_in_groups : Map AuthQuotaState → List PriorityGroup → Option Auth
unfolding first_idle
idle_in_groups states [] = none
idle_in_groups states (g ∷ gs) = elim (idle_in_groups states gs) [
  | some a ↦ some a
  | none ↦ first_idle states g.auths
]

module _ (random : ℕ → ℕ) where
  unfoldable pub random_in_last : List PriorityGroup → Option Auth
  random_in_last [] = none
  random_in_last (g ∷ gs) = get_elem? g.auths (random (length g.auths))

  unfoldable pub fill_first_from : Map AuthQuotaState → List PriorityGroup → Option Auth
  unfolding idle_in_groups random_in_last
  fill_first_from states gs = elim (idle_in_groups states gs) [
    | some a ↦ some a
    | none ↦ random_in_last gs
  ]

-- What Pick returns. `panicked` stands for an index out of range or a nil that is read.
pub data Picked : Type 0 where
  picked : Auth → Picked
  auth_not_found : Picked
  no_auth : RetryError → Picked
  panicked : Picked

pub record QuotaManager : Type 0 where
  pub states : Map AuthQuotaState
  pub sticky : StickyStore

module _ (sort_by : (Scored → Scored → Bool) → List Scored → List Scored) (random : ℕ → ℕ)
    (score : Strategy → Auth → Option AuthQuotaState → ProviderQuotaConfig → ℤ) where
  unfoldable pub scored_auths :
      Map AuthQuotaState → Strategy → ProviderQuotaConfig → List Auth → List Scored
  scored_auths states strategy config = map (λ a. (a, score strategy a (lookup a.id states) config))

  unfoldable pub select_with_strategy :
      Map AuthQuotaState → Strategy → ProviderQuotaConfig → List Auth → Option Auth
  unfolding scored_auths fill_first_from group_all choose_similar is_better
  select_with_strategy states strategy config auths =
      let sorted = sort_by is_better (scored_auths states strategy config auths) in
      if config.fill_first
      then fill_first_from random states (group_all [] sorted)
      else choose_similar random sorted

  unfoldable pub start_request : Option Auth → QuotaManager → QuotaManager × Picked
  unfolding increment_active
  start_request none m = (m, panicked)
  start_request (some a) m = (record m { states = increment_active a.id m.states }, picked a)

  -- `m.sticky.Set`, where the configuration asks for it.
  unfoldable pub remember : Time → Text → Bool → Option Auth → QuotaManager → QuotaManager
  unfolding set_key
  remember clock key enabled none m = m
  remember clock key enabled (some a) m =
      if enabled then record m { sticky = set_key clock key a.id m.sticky } else m

  unfoldable pub pick_scored :
      Time
      → Text
      → Strategy
      → ProviderQuotaConfig
      → List Auth
      → QuotaManager
      → Option Auth
      → QuotaManager × Picked
  unfolding start_request remember select_with_strategy
  pick_scored clock key strategy config auths m (some a) = start_request (some a) m
  pick_scored clock key strategy config auths m none =
      let chosen = select_with_strategy m.states strategy config auths in
      start_request chosen (remember clock key config.sticky_enabled chosen m)

  -- The available credentials: one is taken, among several the sticky store is asked first.
  unfoldable pub pick_available :
      Time
      → Text
      → Bool
      → Strategy
      → ProviderQuotaConfig
      → List Auth
      → Picked
      → QuotaManager
      → QuotaManager × Picked
  unfolding pick_scored get_key sticky_auth
  pick_available clock key force strategy config [] otherwise m = (m, otherwise)
  pick_available clock key force strategy config (a ∷ []) otherwise m = start_request (some a) m
  pick_available clock key force strategy config (a ∷ b ∷ auths) otherwise m =
      let found = get_key clock key m.sticky in
      let asked =
        pick_scored clock key strategy config (a ∷ b ∷ auths) (record m { sticky = found.0 })
          (sticky_auth found.1 (a ∷ b ∷ auths)) in
      let unasked = pick_scored clock key strategy config (a ∷ b ∷ auths) m none in
      if config.sticky_enabled && not force then asked else unasked

  unfoldable pub pick :
      Resolvers
      → Time
      → Time
      → Text
      → Text
      → Bool
      → List Auth
      → QuotaManager
      → QuotaManager × Picked
  unfolding pick_available filter_available build_retry_error get_strategy get_provider_quota_config
  pick resolvers now clock provider model force [] m = (m, auth_not_found)
  pick resolvers now clock provider model force (a ∷ auths) m =
      pick_available clock (pick_key provider model) force (get_strategy provider)
        (get_provider_quota_config provider)
        (filter_available resolvers m.states model now clock (a ∷ auths))
        (no_auth (build_retry_error now m.states (a ∷ auths))) m

-- The test of cleanup: nothing runs, the cooldown is over, and the last quota error is a day old.
unfoldable pub is_stale : Time → AuthQuotaState → Bool
unfolding get_cooldown_until to_time
is_stale now s =
    let cooldown = get_cooldown_until s in
    s.active_requests == 0
    && (after now cooldown || ltb_ℤ (pos hour) (sub now cooldown))
    && ltb_ℤ (pos (24 * hour)) (sub now (to_time s.last_exhausted_at))

unfoldable pub cleanup : Time → Map AuthQuotaState → Map AuthQuotaState
unfolding is_stale
cleanup now [] = []
cleanup now ((id, s) ∷ states) =
    let rest = cleanup now states in if is_stale now s then rest else (id, s) ∷ rest
