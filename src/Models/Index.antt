-- ===== src/Models/Index.antt =====
-- internal/registry/state.go: the two indices, from a model's id to the keys of its registrations
-- and from a canonical id to the providers that serve it.
use llm_mux_fork.Prelude.{
  ℤ, Bool, ◌&&◌, ◌||◌, if◌then◌else◌, Text, text_eq, is_empty, List, [], ◌∷◌, ◌++◌, any, Map,
  insert, delete, lookup_or,
}
use llm_mux_fork.Models.Types.{ProviderModelMapping, RegistryState}

module _ {ℓ} {A : Type ℓ} where
  unfoldable pub last : A → List A → A
  last x [] = x
  last x (y ∷ ys) = last y ys

  unfoldable pub init : A → List A → List A
  init x [] = []
  init x (y ∷ ys) = x ∷ init y ys

  -- The first element is overwritten by the last one, which is cut off.
  unfoldable pub move_last : List A → List A
  unfolding last init
  move_last [] = []
  move_last (y ∷ ys) = last y ys ∷ init y ys

  -- The first element that passes the test is removed in this way.
  unfoldable pub swap_remove : (A → Bool) → List A → List A
  unfolding move_last
  swap_remove p [] = []
  swap_remove p (x ∷ xs) = if p x then move_last xs else x ∷ swap_remove p xs

  -- What an entry of an index becomes. One that is left empty is deleted.
  unfoldable pub store_rest : Text → List A → Map (List A) → Map (List A)
  store_rest id [] idx = delete id idx
  store_rest id (x ∷ xs) idx = insert id (x ∷ xs) idx

  unfoldable pub remove_from_index : (A → Bool) → Text → Map (List A) → Map (List A)
  unfolding swap_remove store_rest
  remove_from_index p id idx =
      let entries = lookup_or [] id idx in
      if any p entries then store_rest id (swap_remove p entries) idx else idx

  unfoldable pub add_to_index : (A → Bool) → A → Text → Map (List A) → Map (List A)
  add_to_index p entry id idx =
      let entries = lookup_or [] id idx in
      if any p entries then idx else insert id (entries ++ (entry ∷ [])) idx

unfoldable pub add_to_model_id_index : Text → Text → RegistryState → RegistryState
unfolding add_to_index
add_to_model_id_index model_id key st =
    if is_empty model_id || is_empty key then st else record st {
      model_id_index = add_to_index (λ k. text_eq k key) key model_id st.model_id_index;
    }

unfoldable pub remove_from_model_id_index : Text → Text → RegistryState → RegistryState
unfolding remove_from_index
remove_from_model_id_index model_id key st =
    if is_empty model_id || is_empty key then st else record st {
      model_id_index = remove_from_index (λ k. text_eq k key) model_id st.model_id_index;
    }

unfoldable pub is_mapping : Text → Text → ProviderModelMapping → Bool
is_mapping provider model_id m = text_eq m.provider provider && text_eq m.model_id model_id

unfoldable pub add_to_canonical_index : Text → Text → Text → ℤ → RegistryState → RegistryState
unfolding add_to_index is_mapping
add_to_canonical_index canonical_id provider model_id priority st =
    if is_empty canonical_id || is_empty provider || is_empty model_id then st else record st {
      canonical_index =
          add_to_index (is_mapping provider model_id)
            (record { provider = provider; model_id = model_id; priority = priority }) canonical_id
            st.canonical_index;
    }

unfoldable pub remove_from_canonical_index : Text → Text → Text → RegistryState → RegistryState
unfolding remove_from_index is_mapping
remove_from_canonical_index canonical_id provider model_id st =
    if is_empty canonical_id || is_empty provider then st else record st {
      canonical_index =
          remove_from_index (is_mapping provider model_id) canonical_id st.canonical_index;
    }
