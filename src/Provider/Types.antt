-- ===== src/Provider/Types.antt =====
-- internal/provider/status.go and types.go: credentials and the state of each model under one.
-- Field values that no modelled operation looks into (a label, a token store, provider data) are
-- opaque texts or numbers. Maps hold no nil pointers.
use llm_mux_fork.Prelude.{ℕ, ℤ, pos, Bool, false, Option, Text, txt, Map}
use llm_mux_fork.Clock.{Time, zero_time}
use llm_mux_fork.Failure.Error.{Error}

pub data Status : Type 0 where
  unknown active pending refreshing error disabled : Status

pub record QuotaState : Type 0 where
  pub exceeded : Bool
  pub reason : Text
  pub next_recover_at : Time
  pub backoff_level : ℤ

abbrev pub no_quota : QuotaState
no_quota = record {
  exceeded = false;
  reason = txt "";
  next_recover_at = zero_time;
  backoff_level = pos 0;
}

pub record ModelState : Type 0 where
  pub status : Status
  pub status_message : Text
  pub unavailable : Bool
  pub next_retry_after : Time
  pub last_error : Option Error
  pub quota : QuotaState
  pub updated_at : Time

-- A group of models that share a quota, while it is used up (internal/provider/quota_group.go).
pub record QuotaGroupState : Type 0 where
  pub next_retry_after : Time
  pub next_recover_at : Time
  pub source_model : Text

abbrev pub QuotaGroupIndex : Type 0
QuotaGroupIndex = Map QuotaGroupState

-- What `AuthRuntimeData.ProviderData` holds: nothing, an index that stood in `Runtime` by itself, or
-- a value of the provider.
pub data ProviderData : Type 0 where
  no_data : ProviderData
  index_data : QuotaGroupIndex → ProviderData
  foreign_data : ℕ → ProviderData

-- `Auth.Runtime`, a value of any type: none, a bare index, an AuthRuntimeData, or another.
pub data Runtime : Type 0 where
  no_runtime : Runtime
  bare_index : QuotaGroupIndex → Runtime
  runtime_data : Option QuotaGroupIndex → ProviderData → Runtime
  foreign : ℕ → Runtime

pub record Auth : Type 0 where
  pub id : Text
  pub index : ℕ
  pub provider : Text
  pub file_name : Text
  pub storage : ℕ
  pub label : Text
  pub status : Status
  pub status_message : Text
  pub disabled : Bool
  pub unavailable : Bool
  pub proxy_url : Text
  pub attributes : Map Text
  pub priority : ℤ
  pub metadata : Map ℕ
  pub quota : QuotaState
  pub last_error : Option Error
  pub created_at : Time
  pub updated_at : Time
  pub material_version : ℕ
  pub last_refreshed_at : Time
  pub next_refresh_after : Time
  pub next_retry_after : Time
  pub model_states : Map ModelState
  pub runtime : Runtime
  pub index_assigned : Bool

-- Why a credential may not be used for a model (internal/provider/selector.go).
pub data BlockReason : Type 0 where
  none_given cooldown is_disabled other : BlockReason

-- `(blocked, reason, next)`
pub record Verdict : Type 0 where
  pub blocked : Bool
  pub reason : BlockReason
  pub next : Time

abbrev pub free : Verdict
free = record { blocked = false; reason = none_given; next = zero_time }

-- The result of one request (internal/provider/manager.go).
pub record Result : Type 0 where
  pub auth_id : Text
  pub provider : Text
  pub model : Text
  pub success : Bool
  pub retry_after : Option ℤ
  pub error : Option Error
