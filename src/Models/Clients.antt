-- ===== src/Models/Clients.antt =====
-- internal/registry/model_registration.go: RegisterClient and UnregisterClient as a whole, by what
-- they do to the count of each registration.
use mathlib.Core.Path.{ap₂}
use llm_mux_fork.Prelude.{
  ℕ, ◌+◌, ◌-◌, ◌≤◌, ◌≡◌, refl, sym, ◌∙◌, ap, subst, ltb, ◌⊎◌, Bool-cases, inl, inr, Option-cases,
  Option, none, some, Text, to_lower, List, [], Map, lookup, lookup_or, length, arith,
}
use llm_mux_fork.Clock.{Time}
use llm_mux_fork.Models.Types.{ModelInfo, RegistryState}
use llm_mux_fork.Models.Register.{
  unregister_client_internal, unregister_models, release_models, held_provider,
}
use llm_mux_fork.Models.Reconcile.{
  empty_batch, collect, count_ids, add_all, register_named, register_batch, register_client,
}
use llm_mux_fork.Models.Counts.{count_at, uses, count_at-release_models}
use llm_mux_fork.Models.Batches.{
  empty_batch-IsComplete, nothing_raw, valid_ids, collect-valid_ids, collect-IsComplete,
  collect-counts, collect-IsSettled, count_at-add_all,
}
use llm_mux_fork.Models.Usage.{IsRange, count_at-models, count_at-reconcile}

-- How often a client uses the registration under a key, by its provider and its models.
unfoldable pub used : Text → Text → RegistryState → ℕ
unfolding uses
used client k st =
    uses (lookup_or [] client st.client_providers) k (lookup_or [] client st.client_models)

held_provider-lookup_or :
    (client : Text) (m : Map Text) → held_provider (lookup client m) ≡ lookup_or [] client m
unfolding lookup_or
held_provider-lookup_or client m = elim (Option-cases (lookup client m)) [
  | inl e ↦ ground arith
  | inr (p, e) ↦ ground arith
]

pub lookup_or-some {ℓ} :
    {V : Type ℓ} (d v : V) (k : Text) (m : Map V) → lookup k m ≡ some v → lookup_or d k m ≡ v
unfolding lookup_or
lookup_or-some d v k m h = ground arith

pub lookup_or_missing {ℓ} :
    {V : Type ℓ} (d : V) (k : Text) (m : Map V) → lookup k m ≡ none → lookup_or d k m ≡ d
unfolding lookup_or
lookup_or_missing d k m h = ground arith

used_missing :
    (client k : Text) (st : RegistryState)
    → lookup client st.client_models ≡ none
    → used client k st ≡ 0
unfolding used
used_missing client k st e = rw (lookup_or_missing [] client st.client_models e)

pub used_nothing :
    (client k : Text) (st : RegistryState)
    → lookup client st.client_models ≡ some []
    → used client k st ≡ 0
unfolding used
used_nothing client k st e = rw (lookup_or-some [] [] client st.client_models e)

unregister_models-count_at :
    (now : Time) (client k : Text) (st : RegistryState) (o : Option (List Text))
    → lookup client st.client_models ≡ o
    → count_at k (unregister_models now client o st) ≡ count_at k st - used client k st
unfolding unregister_models used
unregister_models-count_at now client k st none e =
    rw (lookup_or_missing [] client st.client_models e) (count_at-models k _ st refl ∙ omega arith)
unregister_models-count_at now client k st (some ids) e =
    rw
      (
        lookup_or-some [] ids client st.client_models e,
        ← held_provider-lookup_or client st.client_providers,
      )
      (count_at-models k _ (release_models client (lookup client st.client_providers) now ids st)
          refl
        ∙ count_at-release_models client k (lookup client st.client_providers) now ids st)

-- UnregisterClient takes from the count of every registration the client's uses of it, however often
-- the client registered a model, and no more.
pub count_at-unregister_client_internal :
    (now : Time) (client k : Text) (st : RegistryState)
    → count_at k (unregister_client_internal now client st) ≡ count_at k st - used client k st
unfolding unregister_client_internal
count_at-unregister_client_internal now client k st =
    unregister_models-count_at now client k st (lookup client st.client_models) refl

module _ (visit : ℕ → Map ℕ → Map ℕ) (range : IsRange visit) where
  register_named-count_at :
      (now : Time) (client provider k : Text) (ms : List (Option ModelInfo)) (st : RegistryState)
      (o : Option (List Text))
      → lookup client st.client_models ≡ o
      → (o ≡ none) ⊎ (lookup_or [] client st.client_providers ≡ provider)
      → used client k st ≤ count_at k st
      → count_at k (register_named visit now client provider (collect ms empty_batch) o st)
        ≡ count_at k st - used client k st + uses provider k (valid_ids ms)
  unfolding register_named
  register_named-count_at now client provider k ms st none e same enough =
      let b = collect ms empty_batch in
      rw (used_missing client k st e, ← collect-valid_ids ms)
        (count_at-models k _ (add_all b.raw_ids b.infos provider now st) refl
          ∙ count_at-add_all b.raw_ids b.infos provider k now st
              (collect-IsComplete ms empty_batch empty_batch-IsComplete).raw
          ∙ omega arith)
  register_named-count_at now client provider k ms st (some ids) e (inl h) enough = cc
  register_named-count_at now client provider k ms st (some ids) e (inr same) enough =
      let b = collect ms empty_batch in
      let whole = collect-IsComplete ms empty_batch empty_batch-IsComplete in
      let raw = collect-valid_ids ms in
      let former = lookup_or-some [] ids client st.client_models e in
      let counted : b.counts ≡ count_ids b.raw_ids [] =
        collect-counts ms empty_batch ∙ ap (λ xs. count_ids xs []) (sym raw) in
      let before : used client k st ≡ uses provider k ids =
        unfold used in ap₂ (λ p xs. uses p k xs) same former in
      rw (same, ← raw)
        (count_at-reconcile visit range now client provider k ids b st counted whole.counted
            (subst (λ n. n ≤ count_at k st) before enough)
          ∙ ap (λ n. count_at k st - n + uses provider k b.raw_ids) (sym before))

  -- Where the client had no models, or keeps its provider, and where the count of a registration is at
  -- least the client's uses of it, RegisterClient takes those uses from that count and adds the client's
  -- new ones.
  pub count_at-register_client :
      (now : Time) (client client_provider k : Text) (ms : List (Option ModelInfo))
      (st : RegistryState)
      → (lookup client st.client_models ≡ none)
        ⊎ (lookup_or [] client st.client_providers ≡ to_lower client_provider)
      → used client k st ≤ count_at k st
      → count_at k (register_client visit now client client_provider ms st)
        ≡ count_at k st - used client k st + uses (to_lower client_provider) k (valid_ids ms)
  unfolding register_client register_batch
  count_at-register_client now client client_provider k ms st same enough =
      let b = collect ms empty_batch in
      elim (Bool-cases (ltb 0 (length b.unique_ids))) [
        | inl some_id ↦ rw some_id (
            register_named-count_at now client (to_lower client_provider) k ms st
              (lookup client st.client_models) refl same enough)
        | inr no_id ↦
            let nothing : valid_ids ms ≡ [] =
              sym (collect-valid_ids ms)
              ∙ nothing_raw b no_id (collect-IsSettled ms empty_batch (inr (refl, refl))) in
            rw (no_id, nothing)
              (count_at-models k _ (unregister_client_internal now client st) refl
                ∙ count_at-unregister_client_internal now client k st
                ∙ unfold uses in omega arith)
      ]
