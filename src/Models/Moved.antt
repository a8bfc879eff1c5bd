-- ===== src/Models/Moved.antt =====
-- internal/registry/model_registration.go: RegisterClient for a client that has models, under whatever
-- provider, with the ids that it has.
use llm_mux_fork.Prelude.{
  ℕ, ◌≡◌, refl, sym, ◌∙◌, ap, subst, ltb, ◌==◌, ◌||◌, ◌&&◌, not, Bool, true, false, Bool-cases, inl,
  inr, if◌then◌else◌, Option, none, some, Text, text_eq, is_empty, to_lower, List, [], ◌∷◌, Map,
  lookup, lookup_or, adjust, All, length, arith,
}
use llm_mux_fork.Clock.{Time}
use llm_mux_fork.Models.Types.{ModelInfo, ModelRegistration, RegistryState}
use llm_mux_fork.Models.Register.{unregister_client_internal}
use llm_mux_fork.Models.Reconcile.{
  Batch, empty_batch, collect, count_ids, lower_provider, leave_provider, remove_gone, missing_in,
  ids_of, remove_overage, add_missing, refresh_all, reconcile, register_named, register_batch,
  register_client,
}
use llm_mux_fork.Models.Counts.{count_at}
use llm_mux_fork.Models.Batches.{
  IsListed, empty_batch-IsComplete, valid_ids, collect-valid_ids, collect-IsComplete,
  collect-counts, collect-IsSettled, nothing_raw,
}
use llm_mux_fork.Models.Weights.{
  share_of, id_of_key, IsDistinct, IsDistinct-count_ids, weight-share,
}
use llm_mux_fork.Models.Reconciled.{
  gone_by, over_by, short_by, count_at-remove_gone, count_at-remove_overage, count_at-adjust,
  count_at-refresh_all,
}
use llm_mux_fork.Models.Usage.{
  IsRange, weight_in_order, gone_by_absent, added_in_order, count_at-models,
}
use llm_mux_fork.Models.Clients.{used_nothing, count_at-unregister_client_internal}

lower_provider-count :
    (provider : Text) (by : ℕ) (r : ModelRegistration)
    → (lower_provider provider by r).count ≡ r.count
unfolding lower_provider
lower_provider-count provider by r = ground arith

count_at_if :
    (b : Bool) (k : Text) (st x y : RegistryState)
    → count_at k x ≡ count_at k st
    → count_at k y ≡ count_at k st
    → count_at k (if b then x else y) ≡ count_at k st
count_at_if true k st x y h h' = h
count_at_if false k st x y h h' = h'

count_at-leave_provider :
    (provider k : Text) (old l : Map ℕ) (st : RegistryState)
    → count_at k (leave_provider provider old l st) ≡ count_at k st
unfolding leave_provider
count_at-leave_provider provider k old [] st = refl
count_at-leave_provider provider k old ((id, n) ∷ l) st =
    let m = lookup_or 0 id old in
    let lowered = lower_provider provider (if ltb m n then m else n) in
    let next = record st { models = adjust lowered id st.models } in
    let skip = n == 0 || m == 0 in
    count_at-leave_provider provider k old l (if skip then st else next)
    ∙ count_at_if skip k st st next refl
        (count_at-adjust lowered id k st (lower_provider-count provider _))

-- With the counts as they were, no loop has anything to do.
still_gone : (o : Option Text) (old : Map ℕ) → share_of o (gone_by old old) old ≡ 0
still_gone none old = refl
still_gone (some j) old = ground arith

still_over : (o : Option Text) (old : Map ℕ) → share_of o (over_by old) old ≡ 0
still_over none old = refl
still_over (some j) old = ground arith

still_short : (o : Option Text) (old : Map ℕ) → share_of o (short_by old) old ≡ 0
still_short none old = refl
still_short (some j) old = ground arith

module _ (visit : ℕ → Map ℕ → Map ℕ) (range : IsRange visit) where
  count_at-reconcile_same :
      (now : Time) (client old_provider provider k : Text) (old_ids : List Text) (b : Batch)
      (st : RegistryState)
      → b.counts ≡ count_ids old_ids []
      → All (λ x. IsListed b.infos x.0) b.counts
      → count_at k (reconcile visit now client old_provider provider old_ids b st) ≡ count_at k st
  unfolding reconcile
  count_at-reconcile_same now client old_provider provider k old_ids b st same listed =
      let old = b.counts in
      let distinct : IsDistinct old =
        subst IsDistinct (sym same) (IsDistinct-count_ids old_ids [] tt) in
      let changed = not (text_eq old_provider provider) in
      let leaves = changed && not (is_empty old_provider) in
      let left = leave_provider old_provider old (visit 1 old) st in
      let st1 = if leaves then left else st in
      let o = id_of_key old_provider k in
      let p = id_of_key provider k in
      let st2 =
        remove_gone (missing_in old (ids_of (visit 0 old))) old client old_provider now st1 in
      let st3 = remove_overage (visit 2 old) old client old_provider now st2 in
      let st4 = add_missing (visit 3 old) old b.infos provider now st3 in
      rw (← same) (
        count_at-models k _
          (refresh_all b.unique_ids b old client provider changed (missing_in old b.unique_ids) now
            st4)
          refl
        ∙ count_at-refresh_all b.unique_ids b old client provider k changed
            (missing_in old b.unique_ids) now st4
        ∙ added_in_order old (visit 3 old) old b.infos provider k now st3 (range 3 old) listed
        ∙ omega (
          arith,
          count_at_if leaves k st left st
              (count_at-leave_provider old_provider k old (visit 1 old) st) refl,
          count_at-remove_gone old old (visit 0 old) client old_provider k now st1,
          count_at-remove_overage old (visit 2 old) client old_provider k now st2,
          weight_in_order o (gone_by old old) (visit 0 old) old (range 0 old) distinct
              (gone_by_absent old old),
          weight_in_order o (over_by old) (visit 2 old) old (range 2 old) distinct
              (λ j h. ground arith),
          weight-share p (short_by old) old distinct (λ j h. ground arith),
          still_gone o old,
          still_over o old,
          still_short p old,
        ))

  register_named-same :
      (now : Time) (client provider k : Text) (ms : List (Option ModelInfo)) (st : RegistryState)
      (ids : List Text)
      → valid_ids ms ≡ ids
      → count_at k (register_named visit now client provider (collect ms empty_batch) (some ids) st)
        ≡ count_at k st
  unfolding register_named
  register_named-same now client provider k ms st ids e =
      count_at-reconcile_same now client (lookup_or [] client st.client_providers) provider k ids
        (collect ms empty_batch) st (collect-counts ms empty_batch ∙ ap (λ xs. count_ids xs []) e)
        (collect-IsComplete ms empty_batch empty_batch-IsComplete).counted

  -- Where a client registers again the ids that it has, no count changes, also where the provider is
  -- another one: the registrations stay under the keys of the provider that the client had.
  pub count_at-register_client_same :
      (now : Time) (client client_provider k : Text) (ms : List (Option ModelInfo))
      (st : RegistryState)
      → lookup client st.client_models ≡ some (valid_ids ms)
      → count_at k (register_client visit now client client_provider ms st) ≡ count_at k st
  unfolding register_client register_batch
  count_at-register_client_same now client client_provider k ms st e =
      let b = collect ms empty_batch in
      elim (Bool-cases (ltb 0 (length b.unique_ids))) [
        | inl some_id ↦
            rw (some_id, e)
              (register_named-same now client (to_lower client_provider) k ms st (valid_ids ms)
                refl)
        | inr no_id ↦
            let nothing : valid_ids ms ≡ [] =
              sym (collect-valid_ids ms)
              ∙ nothing_raw b no_id (collect-IsSettled ms empty_batch (inr (refl, refl))) in
            rw no_id (
              count_at-models k _ (unregister_client_internal now client st) refl
              ∙ count_at-unregister_client_internal now client k st
              ∙ omega (arith, used_nothing client k st (e ∙ ap some nothing)))
      ]
