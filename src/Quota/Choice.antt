-- ===== src/Quota/Choice.antt =====
-- internal/provider/quota_manager.go: what QuotaManager.Pick chooses.
use llm_mux_fork.Prelude.{
  ℕ, ◌+◌, ◌<◌, ◌≡◌, ◌≢◌, refl, sym, ap, subst, ℤ, Bool, true, false, not, ◌&&◌, Bool-cases, inl,
  inr, if◌then◌else◌, Option, none, some, Text, text_eq, List, [], ◌∷◌, length, map, Map, lookup,
  lookup-insert, text_eq_iff, length-map, uncons, In, here, there, All, IsReordering, arith,
}
use llm_mux_fork.Clock.{Time}
use llm_mux_fork.Provider.Types.{Auth}
use llm_mux_fork.Groups.Resolve.{Resolvers}
use llm_mux_fork.Sticky.Store.{get_key}
use llm_mux_fork.Legacy.Select.{sticky_auth, pick_key}
use llm_mux_fork.Legacy.Turns.{find_id-In}
use llm_mux_fork.Quota.State.{AuthQuotaState, Strategy, get_strategy}
use llm_mux_fork.Quota.Manager.{
  or_new, update_state, increment_active, filter_available, build_retry_error,
}
use llm_mux_fork.Quota.Config.{ProviderQuotaConfig, get_provider_quota_config}
use llm_mux_fork.Quota.Select.{
  Scored, is_better, group_all, Picked, picked, no_auth, QuotaManager, scored_auths,
  select_with_strategy, start_request, remember, pick_scored, pick_available, pick,
}
use llm_mux_fork.Quota.Open.{IsOpen, IsOpen-filter, filter-IsOpen}
use llm_mux_fork.Quota.Chosen.{
  IsRandom, Chooses, Holds, group_all-IsGroup, choose_similar-Chooses, fill_first_from-Chooses,
}

All-of {ℓ κ} : {A : Type ℓ} (P : A → Type κ) (xs : List A) → ((x : A) → In x xs → P x) → All P xs
All-of P [] h = tt
All-of P (x ∷ xs) h = (h x here, All-of P xs (λ y i. h y (there i)))

either :
    {P : Auth → Type 0} {x y : Option Auth} (b : Bool)
    → Chooses P x
    → Chooses P y
    → Chooses P (if b then x else y)
either true h k = h
either false h k = k

In-scored :
    (g : Auth → ℤ) (auths : List Auth) (c : Scored)
    → In c (map (λ a. (a, g a)) auths)
    → In c.0 auths
In-scored g [] c i = elim i [ ]
In-scored g (a ∷ auths) c i = elim (uncons i) [
  | inl e ↦ subst (λ b. In b (a ∷ auths)) (sym (ap (λ (x : Scored). x.0) e)) here
  | inr j ↦ there (In-scored g auths c j)
]

filled : {a : Auth} (xs : List Auth) → In a xs → xs ≢ []
filled [] i e = elim i [ ]
filled (x ∷ xs) i e = cc

-- The state of a credential with one more request.
abbrev pub one_more : Option AuthQuotaState → AuthQuotaState
one_more o = let s = or_new o in record s { active_requests = s.active_requests + 1 }

-- A credential is picked that has the property, and the request is counted in its state alone.
abbrev pub Starts : (Auth → Type 0) → Text → Map AuthQuotaState → QuotaManager × Picked → Type 0
Starts P j states r =
    (a : Auth) × (r.1 ≡ picked a)
    × P a
    × (lookup j r.0.states
        ≡ (if text_eq a.id j then some (one_more (lookup j states)) else lookup j states))

lookup-increment_active :
    (id j : Text) (states : Map AuthQuotaState)
    → lookup j (increment_active id states)
      ≡ (if text_eq id j then some (one_more (lookup j states)) else lookup j states)
unfolding increment_active update_state or_new
lookup-increment_active id j states = rw lookup-insert (ground (arith, text_eq_iff id j))

module _ (sort_by : (Scored → Scored → Bool) → List Scored → List Scored) (random : ℕ → ℕ)
    (score : Strategy → Auth → Option AuthQuotaState → ProviderQuotaConfig → ℤ)
    (reorders : IsReordering (sort_by is_better)) (ranges : IsRandom random) where
  select_with_strategy-Chooses :
      (states : Map AuthQuotaState) (strategy : Strategy) (config : ProviderQuotaConfig)
      (auths : List Auth)
      → 0 < length auths
      → Chooses
          (λ a. In a auths)
          (select_with_strategy sort_by random score states strategy config auths)
  unfolding select_with_strategy scored_auths
  select_with_strategy-Chooses states strategy config auths n =
      let P : Auth → Type 0 = λ a. In a auths in
      let rate : Auth → ℤ = λ a. score strategy a (lookup a.id states) config in
      let scored : List Scored = map (λ a. (a, rate a)) auths in
      let sorted = sort_by is_better scored in
      let all : Holds P sorted =
        All-of _ sorted (λ c i. In-scored rate auths c (reorders.kept c scored i)) in
      let many : 0 < length sorted =
        omega (arith, reorders.as_many scored, length-map {B = Scored} (λ a. (a, rate a)) auths) in
      let (gs, m) = group_all-IsGroup P [] sorted tt all (omega arith) in
      either config.fill_first
        (fill_first_from-Chooses random ranges P states (group_all [] sorted) gs m)
        (choose_similar-Chooses random ranges P sorted all many)

  start_request-Starts :
      (P : Auth → Type 0) (j : Text) (o : Option Auth) (m : QuotaManager)
      → Chooses P o
      → Starts P j m.states (start_request sort_by random score o m)
  unfolding start_request
  start_request-Starts P j o m (a, e, p) =
      rw e (a, refl, p, lookup-increment_active a.id j m.states)

  remember-states :
      (clock : Time) (key : Text) (enabled : Bool) (o : Option Auth) (m : QuotaManager)
      → (remember sort_by random score clock key enabled o m).states ≡ m.states
  unfolding remember
  remember-states clock key enabled none m = refl
  remember-states clock key true (some a) m = refl
  remember-states clock key false (some a) m = refl

  pick_scored-Starts :
      (clock : Time) (key j : Text) (strategy : Strategy) (config : ProviderQuotaConfig)
      (auths : List Auth) (m : QuotaManager) (o : Option Auth)
      → 0 < length auths
      → ((a : Auth) → o ≡ some a → In a auths)
      → Starts
          (λ a. In a auths)
          j
          m.states
          (pick_scored sort_by random score clock key strategy config auths m o)
  unfolding pick_scored
  pick_scored-Starts clock key j strategy config auths m (some a) n h =
      start_request-Starts (λ b. In b auths) j (some a) m (a, refl, h a refl)
  pick_scored-Starts clock key j strategy config auths m none n h =
      let chosen = select_with_strategy sort_by random score m.states strategy config auths in
      let next = remember sort_by random score clock key config.sticky_enabled chosen m in
      subst
        (λ states.
          Starts (λ b. In b auths) j states (start_request sort_by random score chosen next))
        (remember-states clock key config.sticky_enabled chosen m)
        (start_request-Starts (λ b. In b auths) j chosen next
          (select_with_strategy-Chooses m.states strategy config auths n))

  sticky_auth-In :
      (o : Option Text) (auths : List Auth) (a : Auth) → sticky_auth o auths ≡ some a → In a auths
  unfolding sticky_auth
  sticky_auth-In none auths a e = cc
  sticky_auth-In (some id) auths a e = find_id-In id auths a e

  pick_available-Starts :
      (clock : Time) (key j : Text) (force : Bool) (strategy : Strategy)
      (config : ProviderQuotaConfig) (auths : List Auth) (otherwise : Picked) (m : QuotaManager)
      → auths ≢ []
      → Starts
          (λ a. In a auths)
          j
          m.states
          (pick_available sort_by random score clock key force strategy config auths otherwise m)
  unfolding pick_available
  pick_available-Starts clock key j force strategy config [] otherwise m ne = absurd (ne refl)
  pick_available-Starts clock key j force strategy config (a ∷ []) otherwise m ne =
      start_request-Starts (λ b. In b (a ∷ [])) j (some a) m (a, refl, here)
  pick_available-Starts clock key j force strategy config (a ∷ b ∷ auths) otherwise m ne =
      let all : List Auth = a ∷ b ∷ auths in
      elim (Bool-cases (config.sticky_enabled && not force)) [
        | inl asks ↦ rw asks (
            pick_scored-Starts clock key j strategy config all
              (record m { sticky = (get_key clock key m.sticky).0 })
              (sticky_auth (get_key clock key m.sticky).1 all) (omega arith)
              (sticky_auth-In (get_key clock key m.sticky).1 all))
        | inr skips ↦
            rw skips
              (pick_scored-Starts clock key j strategy config all m none (omega arith) (λ c e. cc))
      ]

  pick_filtered-Starts :
      (resolvers : Resolvers) (now clock : Time) (provider model j : Text) (force : Bool)
      (auths : List Auth) (m : QuotaManager)
      → filter_available resolvers m.states model now clock auths ≢ []
      → Starts
          (λ a. In a (filter_available resolvers m.states model now clock auths))
          j
          m.states
          (pick sort_by random score resolvers now clock provider model force auths m)
  unfolding pick
  pick_filtered-Starts resolvers now clock provider model j force [] m ne =
      absurd (ne (unfold filter_available in refl))
  pick_filtered-Starts resolvers now clock provider model j force (a ∷ auths) m ne =
      pick_available-Starts clock (pick_key provider model) j force (get_strategy provider)
        (get_provider_quota_config provider)
        (filter_available resolvers m.states model now clock (a ∷ auths))
        (no_auth (build_retry_error now m.states (a ∷ auths))) m ne

  -- Where a credential is open, QuotaManager.Pick picks one that is, of those given, whatever the scores,
  -- the random source, the sticky store and the mode are, and counts the request in the state of that
  -- credential and in no other. Open means: not disabled, not blocked for the model, and neither in
  -- cooldown nor used up by a fresh snapshot of its quota.
  pub pick-Starts :
      (resolvers : Resolvers) (now clock : Time) (provider model j : Text) (force : Bool)
      (auths : List Auth) (m : QuotaManager) (b : Auth)
      → In b auths
      → IsOpen resolvers m.states model now clock b
      → Starts
          (λ a. In a auths × IsOpen resolvers m.states model now clock a)
          j
          m.states
          (pick sort_by random score resolvers now clock provider model force auths m)
  pick-Starts resolvers now clock provider model j force auths m b i may =
      let (a, e, k, counted) =
        pick_filtered-Starts resolvers now clock provider model j force auths m (
          filled (filter_available resolvers m.states model now clock auths)
            (IsOpen-filter resolvers m.states model now clock auths b i may)) in
      (a, e, filter-IsOpen resolvers m.states model now clock auths a k, counted)
