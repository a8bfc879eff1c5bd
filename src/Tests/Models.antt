-- ===== src/Tests/Models.antt =====
-- Concrete clients and models for internal/registry.
use mathlib.Core.List.Perm
use llm_mux_fork.Prelude.{
  ℕ, pos, ◌+◌, ◌-◌, ◌≡◌, refl, inl, inr, false, ◌&&◌, ◌||◌, not, if◌then◌else◌, ltb, Option, none,
  some, [], ◌∷◌, List, Map, txt, text_eq, is_empty, to_lower, lookup, insert, lookup_or, length,
  arith,
}
use llm_mux_fork.Tests.Samples.{now}
use llm_mux_fork.Clock.{minute}
use llm_mux_fork.Models.Types.{ModelInfo, ModelRegistration, RegistryState, new_registry_state}
use llm_mux_fork.Models.Reconcile.{register_client}
use llm_mux_fork.Models.Index.{add_to_model_id_index, remove_from_model_id_index}
use llm_mux_fork.Models.Find.{find_model_registration}
use llm_mux_fork.Models.Suspend.{suspend_client_model, resume_client_model, cleanup_expired_quotas}
use llm_mux_fork.Models.Query.{get_model_count}
use llm_mux_fork.Models.Counts.{count_at, uses}
use llm_mux_fork.Models.Batches.{valid_ids}
use llm_mux_fork.Models.Usage.{IsRange}
use llm_mux_fork.Models.Weights.{occurrences}
use llm_mux_fork.Models.Clients.{used, count_at-register_client}
use llm_mux_fork.Models.Untouched.{clients}
use llm_mux_fork.Models.Directory.{entered, left, register_client-clients}
use llm_mux_fork.Models.Balance.{IsBalanced, used-le}
use llm_mux_fork.Models.History.{Step, Reach, Reach-IsBalanced}
use llm_mux_fork.Models.Bags.{serves, touches, IsSingle, model_id_index-refines}
use llm_mux_fork.Models.Marks.{
  IsFresh, get_model_count-cleanup_expired_quotas, get_model_count-suspend_client_model,
  resume_client_model-suspend_client_model,
}
use llm_mux_fork.Models.Moved.{count_at-register_client_same}

abbrev flash : ModelInfo
flash = record {
  id = txt "flash";
  object = txt "model";
  created = pos 1;
  owned_by = txt "google";
  model_type = txt "gemini";
  canonical_id = txt "";
  display_name = txt "Flash";
  name = txt "models/flash";
  version = txt "1";
  description = txt "";
  input_token_limit = pos 1000;
  output_token_limit = pos 100;
  supported_generation_methods = [];
  context_length = pos 0;
  max_completion_tokens = pos 0;
  supported_parameters = [];
  thinking = none;
  priority = pos 0;
  upstream_name = txt "";
  hidden = false;
}

abbrev pro : ModelInfo
pro = record flash { id = txt "pro"; priority = pos 2 }

-- A range in the order of insertion.
abbrev in_order : ℕ → Map ℕ → Map ℕ
in_order n m = m

in_order-IsRange : IsRange in_order
in_order-IsRange n m = Perm.refl m

abbrev given : List (Option ModelInfo)
given = some flash ∷ none ∷ some flash ∷ some pro ∷ []

abbrev registered : RegistryState
registered = register_client in_order now (txt "c1") (txt "Gemini") given new_registry_state

c1_enters : Step new_registry_state registered
unfolding lookup
c1_enters = Step.register in_order now (txt "c1") (txt "Gemini") given in_order-IsRange (inl refl)

Reach-IsBalanced_example : IsBalanced registered
Reach-IsBalanced_example = Reach-IsBalanced (Reach.next Reach.start c1_enters)

flash_twice : count_at (txt "gemini:flash") registered ≡ 2
unfolding count_at register_client lookup_or text_eq insert lookup
flash_twice = refl

gemini_held : lookup_or [] (txt "c1") registered.client_providers ≡ to_lower (txt "GEMINI")
unfolding register_client lookup_or text_eq insert lookup to_lower
gemini_held = refl

count_at-register_client_example :
    count_at
      (txt "gemini:flash")
      (register_client in_order now (txt "c1") (txt "GEMINI") (some flash ∷ []) registered)
    ≡ count_at (txt "gemini:flash") registered
      - used (txt "c1") (txt "gemini:flash") registered
      + uses (to_lower (txt "GEMINI")) (txt "gemini:flash") (valid_ids (some flash ∷ []))
count_at-register_client_example =
    count_at-register_client in_order in_order-IsRange now (txt "c1") (txt "GEMINI")
      (txt "gemini:flash") (some flash ∷ []) registered (inr gemini_held)
      (used-le (txt "c1") (txt "gemini:flash") registered
        (Reach-IsBalanced (Reach.next Reach.start c1_enters)))

register_client-clients_example :
    clients (register_client in_order now (txt "c2") (txt "Claude") given registered) ≡ (
      if ltb 0 (length (valid_ids given))
      then entered (txt "c2") (valid_ids given) (to_lower (txt "Claude")) (clients registered)
      else left (txt "c2") (clients registered))
register_client-clients_example =
    register_client-clients in_order now (txt "c2") (txt "Claude") given registered

c1_has : lookup (txt "c1") registered.client_models ≡ some (valid_ids given)
unfolding register_client lookup_or text_eq insert lookup is_empty
c1_has = refl

count_at-register_client_same_example :
    count_at
      (txt "gemini:flash")
      (register_client in_order now (txt "c1") (txt "Claude") given registered)
    ≡ count_at (txt "gemini:flash") registered
count_at-register_client_same_example =
    count_at-register_client_same in_order in_order-IsRange now (txt "c1") (txt "Claude")
      (txt "gemini:flash") given registered c1_has

empty_index-IsSingle : IsSingle new_registry_state.model_id_index
unfolding lookup_or occurrences
empty_index-IsSingle = record { once = λ id key. omega arith }

model_id_index-refines_example :
    (serves
        (txt "flash")
        (txt "gemini:flash")
        (add_to_model_id_index (txt "flash") (txt "gemini:flash") new_registry_state).model_id_index
      ≡ (serves (txt "flash") (txt "gemini:flash") new_registry_state.model_id_index
          || touches (txt "flash") (txt "gemini:flash") (txt "flash") (txt "gemini:flash")))
    × (serves
          (txt "flash")
          (txt "gemini:flash")
          (remove_from_model_id_index
            (txt "flash")
            (txt "gemini:flash")
            new_registry_state).model_id_index
        ≡ (serves (txt "flash") (txt "gemini:flash") new_registry_state.model_id_index
            && not (touches (txt "flash") (txt "gemini:flash") (txt "flash") (txt "gemini:flash"))))
    × IsSingle
        (add_to_model_id_index (txt "flash") (txt "gemini:flash") new_registry_state).model_id_index
    × IsSingle
        (remove_from_model_id_index
          (txt "flash")
          (txt "gemini:flash")
          new_registry_state).model_id_index
model_id_index-refines_example =
    model_id_index-refines (txt "flash") (txt "gemini:flash") (txt "flash") (txt "gemini:flash")
      new_registry_state empty_index-IsSingle

get_model_count-cleanup_expired_quotas_example :
    get_model_count (now + minute) (txt "flash") (cleanup_expired_quotas now registered)
    ≡ get_model_count (now + minute) (txt "flash") registered
get_model_count-cleanup_expired_quotas_example =
    get_model_count-cleanup_expired_quotas now (now + minute) (txt "flash") registered (omega arith)

-- The registration of flash.
abbrev flash_registration : ModelRegistration
flash_registration = record {
  info = some flash;
  count = 2;
  last_updated = now;
  quota_exceeded_clients = [];
  providers = (txt "gemini", 2) ∷ [];
  suspended_clients = [];
}

flash-IsFresh : IsFresh (txt "c1") (txt "flash") registered flash_registration
unfolding is_empty find_model_registration register_client lookup_or text_eq insert lookup
flash-IsFresh = record { client_named = refl; id_named = refl; found = refl; served = refl }

get_model_count-suspend_client_model_example :
    get_model_count now
      (txt "flash")
      (suspend_client_model now (txt "c1") (txt "flash") (txt "quota") registered)
    ≡ get_model_count now (txt "flash") registered - 1
get_model_count-suspend_client_model_example =
    get_model_count-suspend_client_model now now (txt "c1") (txt "flash") (txt "quota") registered
      flash_registration flash-IsFresh

resume_client_model-suspend_client_model_example :
    find_model_registration
      (resume_client_model
        (now + minute)
        (txt "c1")
        (txt "flash")
        (suspend_client_model now (txt "c1") (txt "flash") (txt "quota") registered))
      (txt "flash")
    ≡ some (record flash_registration { last_updated = now + minute })
resume_client_model-suspend_client_model_example =
    resume_client_model-suspend_client_model now (now + minute) (txt "c1") (txt "flash")
      (txt "quota") registered flash_registration flash-IsFresh
