-- ===== src/Models/History.antt =====
-- internal/registry: the states that the operations of the registry lead to. The lock of the writers
-- makes each operation one step.
use llm_mux_fork.Prelude.{
  ℕ, ◌≡◌, refl, Bool, true, false, ◌||◌, Option, none, some, Text, is_empty, List, Map, lookup,
  lookup-map_values, arith, if◌then◌else◌,
}
use llm_mux_fork.Clock.{Time}
use llm_mux_fork.Models.Types.{
  ModelInfo, ModelRegistration, RegistryState, new_registry_state, set_show_provider_prefixes,
}
use llm_mux_fork.Models.Register.{unregister_client_internal}
use llm_mux_fork.Models.Reconcile.{register_client}
use llm_mux_fork.Models.Find.{find_key}
use llm_mux_fork.Models.Suspend.{
  change_found, mark_exceeded, clear_exceeded, suspend_client, resume_client,
  set_model_quota_exceeded, clear_model_quota_exceeded, suspend_client_model, resume_client_model,
  cleanup_registration, cleanup_expired_quotas,
}
use llm_mux_fork.Models.Counts.{count_at}
use llm_mux_fork.Models.Reconciled.{count_of-map, count_at-adjust}
use llm_mux_fork.Models.Usage.{IsRange}
use llm_mux_fork.Models.Balance.{
  IsBalanced, KeepsProvider, IsBalanced-keep, new_registry_state-IsBalanced,
  unregister_client_internal-IsBalanced, register_client-IsBalanced,
}

pub data Step (st : RegistryState) : RegistryState → Type 0 where
  register :
      (visit : ℕ → Map ℕ → Map ℕ) (now : Time) (client client_provider : Text)
      (ms : List (Option ModelInfo))
      → IsRange visit
      → KeepsProvider client client_provider st
      → Step st (register_client visit now client client_provider ms st)
  unregister : (now : Time) (client : Text) → Step st (unregister_client_internal now client st)
  set_exceeded :
      (now : Time) (client id : Text) → Step st (set_model_quota_exceeded now client id st)
  unset_exceeded : (client id : Text) → Step st (clear_model_quota_exceeded client id st)
  suspend :
      (now : Time) (client id reason : Text)
      → Step st (suspend_client_model now client id reason st)
  resume : (now : Time) (client id : Text) → Step st (resume_client_model now client id st)
  cleanup : (now : Time) → Step st (cleanup_expired_quotas now st)
  show_prefixes : (enabled : Bool) → Step st (set_show_provider_prefixes enabled st)

pub data Reach : RegistryState → Type 0 where
  start : Reach new_registry_state
  next : {st st' : RegistryState} → Reach st → Step st st' → Reach st'

change_found-IsBalanced :
    (f : ModelRegistration → ModelRegistration) (o : Option Text) (st : RegistryState)
    → ((r : ModelRegistration) → (f r).count ≡ r.count)
    → IsBalanced st
    → IsBalanced (change_found f o st)
unfolding change_found
change_found-IsBalanced f none st c h = h
change_found-IsBalanced f (some key) st c h =
    IsBalanced-keep st _ refl (λ k. count_at-adjust f key k st c) h

if_IsBalanced :
    (b : Bool) (st st' : RegistryState)
    → IsBalanced st
    → IsBalanced st'
    → IsBalanced (if b then st else st')
if_IsBalanced true st st' h h' = h
if_IsBalanced false st st' h h' = h'

suspend_client-count :
    (now : Time) (client reason : Text) (r : ModelRegistration)
    → (suspend_client now client reason r).count ≡ r.count
unfolding suspend_client
suspend_client-count now client reason r = ground arith

resume_client-count :
    (now : Time) (client : Text) (r : ModelRegistration)
    → (resume_client now client r).count ≡ r.count
unfolding resume_client
resume_client-count now client r = ground arith

pub count_at-cleanup_expired_quotas :
    (now : Time) (k : Text) (st : RegistryState)
    → count_at k (cleanup_expired_quotas now st) ≡ count_at k st
unfolding count_at cleanup_expired_quotas
count_at-cleanup_expired_quotas now k st = rw lookup-map_values (
    count_of-map (cleanup_registration now) (lookup k st.models)
      (λ r. unfold cleanup_registration in refl))

Step-IsBalanced : {st st' : RegistryState} → Step st st' → IsBalanced st → IsBalanced st'
Step-IsBalanced {st} (register visit now client client_provider ms range same) h =
    register_client-IsBalanced visit now client client_provider ms st range same h
Step-IsBalanced {st} (unregister now client) h =
    unregister_client_internal-IsBalanced now client st h
Step-IsBalanced {st} (set_exceeded now client id) h =
    unfold set_model_quota_exceeded in
    change_found-IsBalanced (mark_exceeded now client) (find_key st id) st
      (λ r. unfold mark_exceeded in refl) h
Step-IsBalanced {st} (unset_exceeded client id) h =
    unfold clear_model_quota_exceeded in
    change_found-IsBalanced (clear_exceeded client) (find_key st id) st
      (λ r. unfold clear_exceeded in refl) h
Step-IsBalanced {st} (suspend now client id reason) h =
    unfold suspend_client_model in
    if_IsBalanced (is_empty client || is_empty id) st _ h (
      change_found-IsBalanced (suspend_client now client reason) (find_key st id) st
        (suspend_client-count now client reason) h)
Step-IsBalanced {st} (resume now client id) h =
    unfold resume_client_model in
    if_IsBalanced (is_empty client || is_empty id) st _ h (
      change_found-IsBalanced (resume_client now client) (find_key st id) st
        (resume_client-count now client) h)
Step-IsBalanced {st} (cleanup now) h =
    IsBalanced-keep st (cleanup_expired_quotas now st) (unfold cleanup_expired_quotas in refl)
      (λ k. count_at-cleanup_expired_quotas now k st) h
Step-IsBalanced {st} (show_prefixes enabled) h =
    IsBalanced-keep st (set_show_provider_prefixes enabled st)
      (unfold set_show_provider_prefixes in refl)
      (λ k. unfold count_at set_show_provider_prefixes in refl) h

-- In every state that the operations lead to from the empty registry, where no client that has models
-- registers again under another provider, the count of each registration is the number of its uses by
-- the clients that are registered.
pub Reach-IsBalanced : {st : RegistryState} → Reach st → IsBalanced st
Reach-IsBalanced start = new_registry_state-IsBalanced
Reach-IsBalanced (next r s) = Step-IsBalanced s (Reach-IsBalanced r)
