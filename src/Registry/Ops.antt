-- ===== src/Registry/Ops.antt =====
-- internal/provider/auth_entry.go: making an entry from a credential and back, the test whether it
-- may be used for a model, and the operations on its counters. `now` is what the clock returns;
-- `expires` is the expiry that expirationFromMap finds in the metadata of the credential.
use llm_mux_fork.Prelude.{
  ◌+◌, ◌-◌, ◌*◌, leb, ltb_ℤ, ℤ, pos, Bool, true, false, not, ◌&&◌, ◌||◌, if◌then◌else◌, Option,
  none, some, Text, is_empty, map_values, lookup,
}
use llm_mux_fork.Clock.{
  to_time, to_ns, Time, zero_time, is_zero, after, before, add, from_unix_nano, minute, second,
}
use llm_mux_fork.Failure.Error.{clone_error}
use llm_mux_fork.Provider.Types.{Status, Auth, no_quota, Verdict, BlockReason, free}
use llm_mux_fork.Registry.Entry.{
  AuthMetadata, ModelStateSnapshot, to_model_state, snapshot_of, no_fields, TokenFields, AuthEntry,
}

unfoldable pub is_disabled_status : Status → Bool
is_disabled_status Status.disabled = true
is_disabled_status _ = false

-- The metadata that NewAuthEntry copies out of a credential.
unfoldable pub metadata_of : Auth → AuthMetadata
unfolding clone_error
metadata_of a = record {
  label = a.label;
  status = a.status;
  status_message = a.status_message;
  proxy_url = a.proxy_url;
  attributes = a.attributes;
  metadata = a.metadata;
  last_error = clone_error a.last_error;
  created_at = a.created_at;
  updated_at = a.updated_at;
  material_version = a.material_version;
  last_refreshed_at = a.last_refreshed_at;
  next_refresh_after = a.next_refresh_after;
  next_retry_after = a.next_retry_after;
  storage = a.storage;
  file_name = a.file_name;
  runtime = a.runtime;
}

-- The cooldown of a new entry: the later assignment wins.
unfoldable pub initial_cooldown : Auth → ℤ
unfolding to_ns
initial_cooldown a =
    let recover =
      if is_zero a.quota.next_recover_at then pos 0 else to_ns a.quota.next_recover_at in
    if is_zero a.next_retry_after then recover else to_ns a.next_retry_after

-- The refresh is due 5 minutes before the expiry, or in 5 seconds where that is past.
unfoldable pub refresh_time : Time → Time → Time
refresh_time now expires_at =
    let at = expires_at - 5 * minute in if before at now then add now (pos (5 * second)) else at

unfoldable pub initial_token : Time → Option Time → TokenFields
unfolding refresh_time to_ns
initial_token now none = record { expires_at = pos 0; refresh_at = pos 0; refreshing = false }
initial_token now (some t) = record {
  expires_at = to_ns t;
  refresh_at = to_ns (refresh_time now t);
  refreshing = false;
}

unfoldable pub new_auth_entry : Time → Option Time → Auth → AuthEntry
unfolding metadata_of initial_cooldown initial_token snapshot_of
new_auth_entry now expires a = record {
  id = a.id;
  provider = a.provider;
  index = a.index;
  metadata = metadata_of a;
  quota = record no_fields { cooldown_until = initial_cooldown a };
  token = initial_token now expires;
  disabled = a.disabled;
  unavailable = a.unavailable;
  model_states = map_values snapshot_of a.model_states;
}

-- The credential that an entry stands for. The priority is not kept.
unfoldable pub to_auth : AuthEntry → Auth
unfolding to_time to_model_state clone_error
to_auth e = record {
  id = e.id;
  index = e.index;
  provider = e.provider;
  file_name = e.metadata.file_name;
  storage = e.metadata.storage;
  label = e.metadata.label;
  status = e.metadata.status;
  status_message = e.metadata.status_message;
  disabled = e.disabled;
  unavailable = e.unavailable;
  proxy_url = e.metadata.proxy_url;
  attributes = e.metadata.attributes;
  priority = pos 0;
  metadata = e.metadata.metadata;
  quota =
      (let cooldown_until = to_time e.quota.cooldown_until in
        if is_zero cooldown_until
        then no_quota
        else record no_quota { exceeded = true; next_recover_at = cooldown_until });
  last_error = clone_error e.metadata.last_error;
  created_at = e.metadata.created_at;
  updated_at = e.metadata.updated_at;
  material_version = e.metadata.material_version;
  last_refreshed_at = e.metadata.last_refreshed_at;
  next_refresh_after = e.metadata.next_refresh_after;
  next_retry_after = e.metadata.next_retry_after;
  model_states = map_values to_model_state e.model_states;
  runtime = e.metadata.runtime;
  index_assigned = true;
}

-- The test on the state of one model.
unfoldable pub state_verdict : Time → ModelStateSnapshot → Verdict
unfolding is_disabled_status
state_verdict now s =
    let retry_time = from_unix_nano s.next_retry_after in
    let recover_time = from_unix_nano s.quota_recover in
    let is_set = λ (ns : ℤ). ltb_ℤ ns (pos 0) || ltb_ℤ (pos 0) ns in
    if is_disabled_status s.status
    then record { blocked = true; reason = BlockReason.is_disabled; next = zero_time }
    else if s.unavailable && not (is_set s.next_retry_after)
    then record { blocked = true; reason = BlockReason.other; next = zero_time }
    else if s.unavailable && after retry_time now
    then record {
      blocked = true;
      reason = if s.quota_exceeded then BlockReason.cooldown else BlockReason.other;
      next = if is_set s.quota_recover && after recover_time now then recover_time else retry_time;
    }
    else free

-- The test on the entry as a whole, where the model has no state.
unfoldable pub entry_verdict : Time → AuthEntry → Verdict
unfolding to_time
entry_verdict now e =
    let cooldown = to_time e.quota.cooldown_until in
    if e.unavailable && after cooldown now
    then record { blocked = true; reason = BlockReason.cooldown; next = cooldown }
    else free

unfoldable pub model_verdict : Time → AuthEntry → Option ModelStateSnapshot → Verdict
unfolding state_verdict entry_verdict
model_verdict now e none = entry_verdict now e
model_verdict now e (some s) = state_verdict now s

unfoldable pub is_blocked_for_model : AuthEntry → Text → Time → Verdict
unfolding model_verdict is_disabled_status
is_blocked_for_model e model now =
    if e.disabled || is_disabled_status e.metadata.status
    then record { blocked = true; reason = BlockReason.is_disabled; next = zero_time }
    else if is_empty model
    then entry_verdict now e
    else model_verdict now e (lookup model e.model_states)

unfoldable pub increment_active_requests : AuthEntry → AuthEntry
increment_active_requests e = record e {
  quota = record (e.quota) { active_requests = e.quota.active_requests + 1 };
}

unfoldable pub decrement_active_requests : AuthEntry → AuthEntry
decrement_active_requests e =
    if leb e.quota.active_requests 0
    then e
    else record e { quota = record (e.quota) { active_requests = e.quota.active_requests - 1 } }

unfoldable pub set_cooldown : Time → Time → AuthEntry → AuthEntry
unfolding to_ns
set_cooldown now until e = record e {
  quota = record (e.quota) { cooldown_until = to_ns until; last_exhausted_at = to_ns now };
  unavailable = true;
}

unfoldable pub clear_cooldown : AuthEntry → AuthEntry
clear_cooldown e = record e {
  quota = record (e.quota) { cooldown_until = pos 0 };
  unavailable = false;
}

unfoldable pub is_in_cooldown : Time → AuthEntry → Bool
unfolding to_time
is_in_cooldown now e =
    let cooldown = to_time e.quota.cooldown_until in not (is_zero cooldown) && after cooldown now
