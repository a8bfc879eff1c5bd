-- ===== src/Models/Suspend.antt =====
-- internal/registry/model_suspension.go: quota and suspension marks of clients on a model.
use llm_mux_fork.Prelude.{
  ℕ, ◌*◌, leb_ℤ, pos, Bool, false, ◌||◌, if◌then◌else◌, Option, none, some, Text, text_eq, is_empty,
  trim_space, to_lower, [], ◌∷◌, any, Map, map_values, lookup, lookup_or, insert, delete, adjust,
}
use llm_mux_fork.Clock.{Time, sub, minute}
use llm_mux_fork.Models.Types.{ModelRegistration, RegistryState}
use llm_mux_fork.Models.Find.{find_key}
use llm_mux_fork.Models.Prefix.{normalize_model_id}

-- A write to the registration that is found, if one is.
unfoldable pub change_found :
    (ModelRegistration → ModelRegistration) → Option Text → RegistryState → RegistryState
change_found f none st = st
change_found f (some key) st = record st { models = adjust f key st.models }

unfoldable pub mark_exceeded : Time → Text → ModelRegistration → ModelRegistration
mark_exceeded now client r = record r {
  quota_exceeded_clients = insert client (some now) r.quota_exceeded_clients;
}

unfoldable pub set_model_quota_exceeded : Time → Text → Text → RegistryState → RegistryState
unfolding change_found mark_exceeded find_key
set_model_quota_exceeded now client id st =
    change_found (mark_exceeded now client) (find_key st id) st

unfoldable pub clear_exceeded : Text → ModelRegistration → ModelRegistration
clear_exceeded client r = record r {
  quota_exceeded_clients = delete client r.quota_exceeded_clients;
}

unfoldable pub clear_model_quota_exceeded : Text → Text → RegistryState → RegistryState
unfolding change_found clear_exceeded find_key
clear_model_quota_exceeded client id st = change_found (clear_exceeded client) (find_key st id) st

-- A client that is suspended already keeps its reason.
unfoldable pub suspend_client : Time → Text → Text → ModelRegistration → ModelRegistration
suspend_client now client reason r = elim (lookup client r.suspended_clients) [
  | some _ ↦ r
  | none ↦ record r {
    suspended_clients = insert client reason r.suspended_clients;
    last_updated = now;
  }
]

unfoldable pub suspend_client_model : Time → Text → Text → Text → RegistryState → RegistryState
unfolding change_found suspend_client find_key
suspend_client_model now client id reason st =
    if is_empty client || is_empty id
    then st
    else change_found (suspend_client now client reason) (find_key st id) st

unfoldable pub resume_client : Time → Text → ModelRegistration → ModelRegistration
resume_client now client r = elim (lookup client r.suspended_clients) [
  | none ↦ r
  | some _ ↦ record r { suspended_clients = delete client r.suspended_clients; last_updated = now }
]

unfoldable pub resume_client_model : Time → Text → Text → RegistryState → RegistryState
unfolding change_found resume_client find_key
resume_client_model now client id st =
    if is_empty client || is_empty id
    then st
    else change_found (resume_client now client) (find_key st id) st

unfoldable pub client_supports_model : Text → Text → RegistryState → Bool
unfolding normalize_model_id trim_space to_lower
client_supports_model client_id model_id st =
    let client = trim_space client_id in
    let id = trim_space model_id in
    let wanted = to_lower (normalize_model_id id) in
    if is_empty client || is_empty id
    then false
    else any (λ m. text_eq (to_lower (trim_space m)) wanted) (lookup_or [] client st.client_models)

-- `quotaExpiredDuration`
abbrev pub quota_expired_duration : ℕ
quota_expired_duration = 5 * minute

unfoldable pub is_expired : Time → Option Time → Bool
is_expired now none = false
is_expired now (some t) = leb_ℤ (pos quota_expired_duration) (sub now t)

unfoldable pub drop_expired : Time → Map (Option Time) → Map (Option Time)
unfolding is_expired
drop_expired now [] = []
drop_expired now ((client, t) ∷ marks) =
    let rest = drop_expired now marks in if is_expired now t then rest else (client, t) ∷ rest

unfoldable pub cleanup_registration : Time → ModelRegistration → ModelRegistration
unfolding drop_expired
cleanup_registration now r = record r {
  quota_exceeded_clients = drop_expired now r.quota_exceeded_clients;
}

-- The state is stored only where something was dropped, else it is as before.
unfoldable pub cleanup_expired_quotas : Time → RegistryState → RegistryState
unfolding cleanup_registration
cleanup_expired_quotas now st = record st {
  models = map_values (cleanup_registration now) st.models;
}
