-- ===== src/Models/Supports.antt =====
-- internal/registry: what ClientSupportsModel answers after RegisterClient.
use llm_mux_fork.Prelude.{
  ℕ, ◌≡◌, refl, sym, ◌∙◌, ap, ltb, false, Bool-cases, inl, inr, Option, Text, text_eq_refl, List,
  [], ◌∷◌, Map, lookup_or, delete, lookup-insert_self, lookup-delete, length, arith,
}
use llm_mux_fork.Clock.{Time}
use llm_mux_fork.Models.Types.{ModelInfo, RegistryState}
use llm_mux_fork.Models.Reconcile.{register_client}
use llm_mux_fork.Models.Batches.{valid_ids}
use llm_mux_fork.Models.Clients.{lookup_or-some, lookup_or_missing}
use llm_mux_fork.Models.Directory.{register_client-clients}

length_zero : (ids : List Text) → ltb 0 (length ids) ≡ false → ids ≡ []
length_zero [] h = refl
length_zero (x ∷ ids) h = absurd (ground arith)

-- The client's models after RegisterClient are those that it gave.
pub models-register_client :
    (visit : ℕ → Map ℕ → Map ℕ) (now : Time) (client client_provider : Text)
    (ms : List (Option ModelInfo)) (st : RegistryState)
    → lookup_or [] client (register_client visit now client client_provider ms st).client_models
      ≡ valid_ids ms
models-register_client visit now client client_provider ms st =
    ap (λ c. lookup_or [] client c.0)
      (register_client-clients visit now client client_provider ms st)
    ∙ elim (Bool-cases (ltb 0 (length (valid_ids ms)))) [
      | inl some_id ↦ rw some_id (
          lookup_or-some [] (valid_ids ms) client _
            (lookup-insert_self client (valid_ids ms) st.client_models))
      | inr no_id ↦ rw no_id (
          lookup_or_missing [] client (delete client st.client_models)
            (rw lookup-delete (rw text_eq_refl refl))
          ∙ sym (length_zero (valid_ids ms) no_id))
    ]
