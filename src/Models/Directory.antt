-- ===== src/Models/Directory.antt =====
-- internal/registry/model_registration.go: what RegisterClient and UnregisterClient leave of the clients,
-- their models and their providers.
use mathlib.Core.Path.{ap₂}
use llm_mux_fork.Prelude.{
  ℕ, ◌≡◌, refl, ◌∙◌, ap, ltb, Bool-cases, inl, inr, if◌then◌else◌, Option, none, some, Text,
  text_eq, is_empty, to_lower, List, [], Map, lookup, lookup_or, insert, delete, delete_absent,
  delete_idem, length, sym, not, ◌&&◌, arith,
}
use llm_mux_fork.Clock.{Time}
use llm_mux_fork.Models.Batches.{
  valid_ids, collect-valid_ids, collect-IsSettled, nothing_raw, raw_of_unique,
}
use llm_mux_fork.Models.Types.{ModelInfo, RegistryState}
use llm_mux_fork.Models.Register.{unregister_models, unregister_client_internal}
use llm_mux_fork.Models.Reconcile.{
  Batch, empty_batch, collect, count_ids, missing_in, ids_of, leave_provider, remove_gone,
  remove_overage, add_missing, reconcile, register_named, register_batch, register_client,
}
use llm_mux_fork.Models.Untouched.{
  clients, release_models-clients, refresh_all-clients, add_missing-clients, remove_overage-clients,
  remove_gone-clients, leave_provider-clients, add_all-clients,
}

-- The directory after RegisterClient has set the client's models and provider.
abbrev pub entered :
    Text → List Text → Text → Map (List Text) × Map Text → Map (List Text) × Map Text
entered client ids provider (models, providers) = (
  insert client ids models,
  if is_empty provider then delete client providers else insert client provider providers,
)

reconcile-clients :
    (visit : ℕ → Map ℕ → Map ℕ) (now : Time) (client old_provider provider : Text)
    (old_ids : List Text) (b : Batch) (st : RegistryState)
    → clients (reconcile visit now client old_provider provider old_ids b st)
      ≡ entered client b.raw_ids provider (clients st)
unfolding reconcile
reconcile-clients visit now client old_provider provider old_ids b st =
    let old = count_ids old_ids [] in
    let changed = not (text_eq old_provider provider) in
    let st1 =
      if changed && not (is_empty old_provider)
      then leave_provider old_provider old (visit 1 b.counts) st
      else st in
    let gone = missing_in b.counts (ids_of (visit 0 old)) in
    let st2 = remove_gone gone old client old_provider now st1 in
    let st3 = remove_overage (visit 2 old) b.counts client old_provider now st2 in
    let st4 = add_missing (visit 3 b.counts) old b.infos provider now st3 in
    ap (entered client b.raw_ids provider) (
      refresh_all-clients b.unique_ids b old client provider changed (missing_in old b.unique_ids)
        now st4
      ∙ add_missing-clients (visit 3 b.counts) old b.infos provider now st3
      ∙ remove_overage-clients (visit 2 old) b.counts client old_provider now st2
      ∙ remove_gone-clients gone old client old_provider now st1
      ∙ ground (arith, leave_provider-clients old_provider old (visit 1 b.counts) st))

-- The directory without a client.
abbrev pub left : Text → Map (List Text) × Map Text → Map (List Text) × Map Text
left client (models, providers) = (delete client models, delete client providers)

unregister_models-clients :
    (now : Time) (client : Text) (st : RegistryState) (o : Option (List Text))
    → lookup client st.client_models ≡ o
    → clients (unregister_models now client o st) ≡ left client (clients st)
unfolding unregister_models
unregister_models-clients now client st none e =
    ap (λ m. (m, delete client st.client_providers)) (sym (delete_absent client st.client_models e))
unregister_models-clients now client st (some ids) e =
    ap (left client) (release_models-clients client (lookup client st.client_providers) now ids st)

pub unregister_client_internal-clients :
    (now : Time) (client : Text) (st : RegistryState)
    → clients (unregister_client_internal now client st) ≡ left client (clients st)
unfolding unregister_client_internal
unregister_client_internal-clients now client st =
    unregister_models-clients now client st (lookup client st.client_models) refl

register_named-clients :
    (visit : ℕ → Map ℕ → Map ℕ) (now : Time) (client provider : Text) (b : Batch)
    (o : Option (List Text)) (st : RegistryState)
    → clients (register_named visit now client provider b o st)
      ≡ entered client b.raw_ids provider (clients st)
unfolding register_named
register_named-clients visit now client provider b none st =
    ap (entered client b.raw_ids provider) (add_all-clients b.raw_ids b.infos provider now st)
register_named-clients visit now client provider b (some ids) st =
    reconcile-clients visit now client (lookup_or [] client st.client_providers) provider ids b st

-- After RegisterClient the registry has just the given models and provider for the client, or nothing
-- where no model was given. The other clients are as before.
pub register_client-clients :
    (visit : ℕ → Map ℕ → Map ℕ) (now : Time) (client client_provider : Text)
    (ms : List (Option ModelInfo)) (st : RegistryState)
    → clients (register_client visit now client client_provider ms st) ≡ (
        if ltb 0 (length (valid_ids ms))
        then entered client (valid_ids ms) (to_lower client_provider) (clients st)
        else left client (clients st))
unfolding register_client register_batch
register_client-clients visit now client client_provider ms st =
    let b = collect ms empty_batch in
    let raw = collect-valid_ids ms in
    elim (Bool-cases (ltb 0 (length b.unique_ids))) [
      | inl some_id ↦
          rw (some_id, ← raw, raw_of_unique ms empty_batch (λ h. h) some_id)
            (register_named-clients visit now client (to_lower client_provider) b
              (lookup client st.client_models) st)
      | inr no_id ↦
          rw
            (
              no_id,
              ← raw,
              nothing_raw b no_id (collect-IsSettled ms empty_batch (inr (refl, refl))),
            )
            (ap (left client) (unregister_client_internal-clients now client st)
              ∙ ap₂ (λ m p. (m, p)) (delete_idem client st.client_models)
                  (delete_idem client st.client_providers))
    ]
