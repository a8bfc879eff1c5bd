-- ===== src/Models/Query.antt =====
-- internal/registry/model_query.go: how many clients serve a model, its description, and the
-- providers there are.
use llm_mux_fork.Prelude.{
  ℕ, ◌+◌, ◌-◌, ltb, ltb_ℤ, pos, ◌==◌, Bool, true, false, not, ◌&&◌, ◌||◌, if◌then◌else◌, Option,
  none, some, Text, txt, text_eq, to_lower, is_empty, List, [], ◌∷◌, Map, insert, lookup, lookup_or,
  length,
}
use llm_mux_fork.Clock.{Time, sub}
use llm_mux_fork.Models.Types.{ModelInfo, ModelRegistration, RegistryState}
use llm_mux_fork.Models.Find.{find_model_registration}
use llm_mux_fork.Models.Suspend.{quota_expired_duration}

unfoldable pub is_recent : Time → Option Time → Bool
is_recent now none = false
is_recent now (some t) = ltb_ℤ (sub now t) (pos quota_expired_duration)

-- `expiredClients`: the marks that still count.
unfoldable pub count_recent : Time → Map (Option Time) → ℕ
unfolding is_recent
count_recent now [] = 0
count_recent now ((_, t) ∷ marks) = (if is_recent now t then 1 else 0) + count_recent now marks

-- Subtraction stops at 0, as the source makes its result.
unfoldable pub model_count : Time → Option ModelRegistration → ℕ
unfolding count_recent
model_count now none = 0
model_count now (some r) =
    r.count - count_recent now r.quota_exceeded_clients - length r.suspended_clients

unfoldable pub get_model_count : Time → Text → RegistryState → ℕ
unfolding model_count find_model_registration
get_model_count now id st = model_count now (find_model_registration st id)

unfoldable pub get_model_info : Text → RegistryState → Option ModelInfo
unfolding find_model_registration
get_model_info id st = elim (find_model_registration st id) [ none ↦ none | some r ↦ r.info ]

unfoldable pub add_counted : Map ℕ → Map Bool → Map Bool
add_counted [] found = found
add_counted ((provider, count) ∷ providers) found =
    add_counted providers (if ltb 0 count then insert provider true found else found)

unfoldable pub provider_set : Map ModelRegistration → Map Bool → Map Bool
unfolding add_counted
provider_set [] found = found
provider_set ((_, r) ∷ models) found =
    provider_set models (if r.count == 0 then found else add_counted r.providers found)

unfoldable pub names_of : Map Bool → List Text
names_of [] = []
names_of ((name, _) ∷ found) = name ∷ names_of found

unfoldable pub get_available_providers : RegistryState → List Text
unfolding provider_set names_of
get_available_providers st = names_of (provider_set st.models [])

-- Suspended clients, for the reason "quota" and for others.
unfoldable pub is_quota_reason : Text → Bool
is_quota_reason reason = text_eq (to_lower reason) (txt "quota")

unfoldable pub count_cooldown : Map Text → ℕ
unfolding is_quota_reason
count_cooldown [] = 0
count_cooldown ((_, reason) ∷ clients) =
    (if is_quota_reason reason then 1 else 0) + count_cooldown clients

unfoldable pub count_other : Map Text → ℕ
unfolding is_quota_reason
count_other [] = 0
count_other ((_, reason) ∷ clients) =
    (if is_quota_reason reason then 0 else 1) + count_other clients

unfoldable pub effective_clients : Time → ModelRegistration → ℕ
unfolding count_recent count_other
effective_clients now r =
    r.count - count_recent now r.quota_exceeded_clients - count_other r.suspended_clients

unfoldable pub is_available : Time → ModelRegistration → Bool
unfolding effective_clients count_recent count_cooldown count_other
is_available now r =
    ltb 0 (effective_clients now r)
    || (ltb 0 r.count
        && (ltb 0 (count_recent now r.quota_exceeded_clients)
            || ltb 0 (count_cooldown r.suspended_clients))
        && count_other r.suspended_clients == 0)

pub record ModelAggregate : Type 0 where
  pub info : ModelInfo
  pub effective : ℕ
  pub providers : Map ℕ
  pub available : Bool

unfoldable pub add_providers : Map ℕ → Map ℕ → Map ℕ
add_providers [] total = total
add_providers ((provider, count) ∷ providers) total =
    add_providers providers (insert provider (lookup_or 0 provider total + count) total)

-- The aggregate of a model's id after one more registration.
unfoldable pub merge_registration :
    Time → ModelInfo → ModelRegistration → Option ModelAggregate → ModelAggregate
unfolding effective_clients is_available add_providers
merge_registration now info r none = record {
  info = info;
  effective = effective_clients now r;
  providers = add_providers r.providers [];
  available = is_available now r;
}
merge_registration now info r (some a) =
    let merged =
      if ltb a.effective (effective_clients now r)
      then record a {
        info = info;
        effective = effective_clients now r;
        available = a.available || is_available now r;
      }
      else if is_available now r && not a.available
      then record a { available = true }
      else a in
    record merged { providers = add_providers r.providers merged.providers }

unfoldable pub aggregate_one :
    Time → ModelRegistration → Option ModelInfo → Map ModelAggregate → Map ModelAggregate
unfolding merge_registration
aggregate_one now r none found = found
aggregate_one now r (some info) found =
    if is_empty info.id
    then found
    else insert info.id (merge_registration now info r (lookup info.id found)) found

-- The first loop of getAvailableModelsFromState.
unfoldable pub aggregate : Time → Map ModelRegistration → Map ModelAggregate → Map ModelAggregate
unfolding aggregate_one
aggregate now [] found = found
aggregate now ((_, r) ∷ models) found = aggregate now models (aggregate_one now r r.info found)
