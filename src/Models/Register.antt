-- ===== src/Models/Register.antt =====
-- internal/registry/model_registration.go: one registration more or less of a model by a client of
-- a provider, and the removal of a client.
use llm_mux_fork.Prelude.{
  ℕ, zero, ℤ, pos, ◌+◌, ◌-◌, leb, if◌then◌else◌, Option, none, some, Text, is_empty, List, [], ◌∷◌,
  Map, lookup, insert, delete, lookup_or,
}
use llm_mux_fork.Clock.{Time}
use llm_mux_fork.Models.Types.{ModelInfo, ModelRegistration, RegistryState, provider_key}
use llm_mux_fork.Models.Index.{
  add_to_model_id_index, remove_from_model_id_index, add_to_canonical_index,
  remove_from_canonical_index,
}

abbrev pub or_one : ℤ → ℤ
or_one (pos zero) = pos 1
or_one n = n

abbrev pub or_else : Text → Text → Text
or_else s t = if is_empty s then t else s

unfoldable pub new_registration : Text → ModelInfo → Time → ModelRegistration
new_registration provider model now = record {
  info = some model;
  count = 1;
  last_updated = now;
  quota_exceeded_clients = [];
  providers = if is_empty provider then [] else (provider, 1) ∷ [];
  suspended_clients = [];
}

unfoldable pub register_again : Text → ModelInfo → Time → ModelRegistration → ModelRegistration
register_again provider model now r = record r {
  count = r.count + 1;
  last_updated = now;
  info = some model;
  providers =
      if is_empty provider
      then r.providers
      else insert provider (lookup_or 0 provider r.providers + 1) r.providers;
}

unfoldable pub index_new : Text → Text → ModelInfo → RegistryState → RegistryState
unfolding add_to_model_id_index add_to_canonical_index
index_new model_id provider model st =
    add_to_canonical_index (or_else model.canonical_id model_id) provider model_id
      (or_one model.priority)
      (if is_empty provider
        then st
        else add_to_model_id_index model_id (provider_key provider model_id) st)

-- What stands at the key before the registration decides between a new one and one more.
unfoldable pub add_at :
    Text → Text → ModelInfo → Time → Option ModelRegistration → RegistryState → RegistryState
unfolding new_registration register_again index_new provider_key
add_at model_id provider model now none st = index_new model_id provider model (record st {
  models = insert (provider_key provider model_id) (new_registration provider model now) st.models;
})
add_at model_id provider model now (some r) st = record st {
  models = insert (provider_key provider model_id) (register_again provider model now r) st.models;
}

unfoldable pub add_model_registration :
    Text → Text → Option ModelInfo → Time → RegistryState → RegistryState
unfolding add_at
add_model_registration model_id provider none now st = st
add_model_registration model_id provider (some model) now st =
    if is_empty model_id
    then st
    else add_at model_id provider model now (lookup (provider_key provider model_id) st.models) st

unfoldable pub drop_provider : Text → Map ℕ → Map ℕ
drop_provider provider providers = elim (lookup provider providers) [
  | none ↦ providers
  | some count ↦
      if leb count 1 then delete provider providers else insert provider (count - 1) providers
]

-- A registration counted down, without what it says of the client.
unfoldable pub count_down : Text → Option Text → Time → ModelRegistration → ModelRegistration
unfolding drop_provider
count_down client held now r = record r {
  count = r.count - 1;
  last_updated = now;
  quota_exceeded_clients = delete client r.quota_exceeded_clients;
  suspended_clients = delete client r.suspended_clients;
  providers = elim held [ none ↦ r.providers | some provider ↦ drop_provider provider r.providers ];
}

-- The mapping of a registration goes: its canonical id, or this id, and the model of the mapping.
unfoldable pub drop_mapping :
    Option ModelInfo → (ModelInfo → Text) → Text → RegistryState → RegistryState
unfolding remove_from_canonical_index
drop_mapping none id provider st = st
drop_mapping (some model) id provider st =
    remove_from_canonical_index (or_else model.canonical_id (id model)) provider (id model) st

unfoldable pub drop_registration :
    Option ModelInfo → (ModelInfo → Text) → Text → Text → RegistryState → RegistryState
unfolding drop_mapping remove_from_model_id_index provider_key
drop_registration info id model_id provider st =
    let st1 = drop_mapping info id provider st in
    let key = provider_key provider model_id in
    let st2 = if is_empty provider then st1 else remove_from_model_id_index model_id key st1 in
    record st2 { models = delete key st2.models }

-- A registration that has been counted down is stored, or goes when no client remains.
unfoldable pub settle :
    (ModelInfo → Text) → Text → Text → ModelRegistration → RegistryState → RegistryState
unfolding drop_registration provider_key
settle id model_id provider r st =
    if leb r.count 0
    then drop_registration r.info id model_id provider st
    else record st { models = insert (provider_key provider model_id) r st.models }

-- What stands at the key, if anything, is counted down.
unfoldable pub release_at :
    (ModelInfo → Text)
    → Text
    → Text
    → Text
    → Option Text
    → Time
    → Option ModelRegistration
    → RegistryState
    → RegistryState
unfolding settle count_down
release_at id client model_id provider held now none st = st
release_at id client model_id provider held now (some r) st =
    settle id model_id provider (count_down client held now r) st

unfoldable pub remove_model_registration : Text → Text → Text → Time → RegistryState → RegistryState
unfolding release_at provider_key
remove_model_registration client model_id provider now st =
    release_at (λ _. model_id) client model_id provider
      (if is_empty provider then none else some provider) now
      (lookup (provider_key provider model_id) st.models) st

abbrev pub held_provider : Option Text → Text
held_provider none = []
held_provider (some provider) = provider

-- One round of the loop of unregisterClientInternal. `held` is what clientProviders has.
unfoldable pub release_model : Text → Option Text → Time → Text → RegistryState → RegistryState
unfolding release_at provider_key
release_model client held now model_id st =
    release_at (λ m. m.id) client model_id (held_provider held) held now
      (lookup (provider_key (held_provider held) model_id) st.models) st

unfoldable pub release_models :
    Text → Option Text → Time → List Text → RegistryState → RegistryState
unfolding release_model
release_models client held now [] st = st
release_models client held now (id ∷ ids) st =
    release_models client held now ids (release_model client held now id st)

unfoldable pub forget_client : Text → RegistryState → RegistryState
forget_client client st = record st {
  client_models = delete client st.client_models;
  client_providers = delete client st.client_providers;
}

-- Where the client has no models, only its provider is deleted.
unfoldable pub unregister_models : Time → Text → Option (List Text) → RegistryState → RegistryState
unfolding release_models forget_client
unregister_models now client none st = record st {
  client_providers = delete client st.client_providers;
}
unregister_models now client (some ids) st =
    forget_client client (release_models client (lookup client st.client_providers) now ids st)

unfoldable pub unregister_client_internal : Time → Text → RegistryState → RegistryState
unfolding unregister_models
unregister_client_internal now client st =
    unregister_models now client (lookup client st.client_models) st
