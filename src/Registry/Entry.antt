-- ===== src/Registry/Entry.antt =====
-- internal/provider/auth_entry.go: the entry of a credential in the registry. An atomic field is a
-- plain field: each operation below is one atomic update, or a loop of loads and compare-and-swaps
-- that takes effect at its last one. Times in int64 fields are nanoseconds since 1970, 0 for none.
use llm_mux_fork.Prelude.{
  ℕ, ℤ, pos, Bool, false, Option, none, Text, txt, Map, map_values, insert, delete,
}
use llm_mux_fork.Clock.{to_time, to_ns, Time, zero_time, from_unix_nano}
use llm_mux_fork.Failure.Error.{Error, clone_error}
use llm_mux_fork.Provider.Types.{Status, ModelState, Runtime}

pub record AuthMetadata : Type 0 where
  pub label : Text
  pub status : Status
  pub status_message : Text
  pub proxy_url : Text
  pub attributes : Map Text
  pub metadata : Map ℕ
  pub last_error : Option Error
  pub created_at : Time
  pub updated_at : Time
  pub material_version : ℕ
  pub last_refreshed_at : Time
  pub next_refresh_after : Time
  pub next_retry_after : Time
  pub storage : ℕ
  pub file_name : Text
  pub runtime : Runtime

unfoldable pub clone_metadata : AuthMetadata → AuthMetadata
unfolding clone_error
clone_metadata m = record m { last_error = clone_error m.last_error }

unfoldable pub clear_error : Time → AuthMetadata → AuthMetadata
unfolding clone_metadata
clear_error now m = record (clone_metadata m) {
  last_error = none;
  status = Status.active;
  status_message = txt "";
  next_retry_after = zero_time;
  updated_at = now;
}

pub record ModelStateSnapshot : Type 0 where
  pub status : Status
  pub status_message : Text
  pub unavailable : Bool
  pub next_retry_after : ℤ
  pub quota_exceeded : Bool
  pub quota_reason : Text
  pub quota_recover : ℤ
  pub backoff_level : ℤ
  pub last_error : Option Error
  pub updated_at : ℤ

unfoldable pub clone_snapshot : ModelStateSnapshot → ModelStateSnapshot
unfolding clone_error
clone_snapshot s = record s { last_error = clone_error s.last_error }

abbrev pub no_snapshot : ModelStateSnapshot
no_snapshot = record {
  status = Status.unknown;
  status_message = txt "";
  unavailable = false;
  next_retry_after = pos 0;
  quota_exceeded = false;
  quota_reason = txt "";
  quota_recover = pos 0;
  backoff_level = pos 0;
  last_error = none;
  updated_at = pos 0;
}

-- `ToModelState`: a time of 0 is the zero time, but for `updated_at`.
unfoldable pub to_model_state : ModelStateSnapshot → ModelState
unfolding to_time clone_error
to_model_state s = record {
  status = s.status;
  status_message = s.status_message;
  unavailable = s.unavailable;
  next_retry_after = to_time s.next_retry_after;
  last_error = clone_error s.last_error;
  quota = record {
    exceeded = s.quota_exceeded;
    reason = s.quota_reason;
    next_recover_at = to_time s.quota_recover;
    backoff_level = s.backoff_level;
  };
  updated_at = from_unix_nano s.updated_at;
}

-- The conversion in the loops of NewAuthEntry and AuthRegistry.Update.
unfoldable pub snapshot_of : ModelState → ModelStateSnapshot
unfolding to_ns clone_error
snapshot_of s = record {
  status = s.status;
  status_message = s.status_message;
  unavailable = s.unavailable;
  next_retry_after = to_ns s.next_retry_after;
  quota_exceeded = s.quota.exceeded;
  quota_reason = s.quota.reason;
  quota_recover = to_ns s.quota.next_recover_at;
  backoff_level = s.quota.backoff_level;
  last_error = clone_error s.last_error;
  updated_at = to_ns s.updated_at;
}

abbrev pub ModelStatesSnapshot : Type 0
ModelStatesSnapshot = Map ModelStateSnapshot

unfoldable pub clone_states : ModelStatesSnapshot → ModelStatesSnapshot
unfolding clone_snapshot
clone_states = map_values clone_snapshot

-- `With` and `Without`
unfoldable pub with_state : Text → ModelStateSnapshot → ModelStatesSnapshot → ModelStatesSnapshot
unfolding clone_states
with_state model state states = insert model state (clone_states states)

unfoldable pub without_state : Text → ModelStatesSnapshot → ModelStatesSnapshot
unfolding clone_states
without_state model states = delete model (clone_states states)

pub record QuotaFields : Type 0 where
  pub active_requests : ℕ
  pub cooldown_until : ℤ
  pub total_tokens_used : ℕ
  pub last_exhausted_at : ℤ
  pub learned_limit : ℤ
  pub learned_cooldown : ℤ

abbrev pub no_fields : QuotaFields
no_fields = record {
  active_requests = 0;
  cooldown_until = pos 0;
  total_tokens_used = 0;
  last_exhausted_at = pos 0;
  learned_limit = pos 0;
  learned_cooldown = pos 0;
}

pub record TokenFields : Type 0 where
  pub expires_at : ℤ
  pub refresh_at : ℤ
  pub refreshing : Bool

pub record AuthEntry : Type 0 where
  pub id : Text
  pub provider : Text
  pub index : ℕ
  pub metadata : AuthMetadata
  pub quota : QuotaFields
  pub token : TokenFields
  pub disabled : Bool
  pub unavailable : Bool
  pub model_states : ModelStatesSnapshot
