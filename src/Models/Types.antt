-- ===== src/Models/Types.antt =====
-- internal/registry/model_registry.go and state.go: a model, its registration, and the state of the
-- registry. A snapshot is a value, so `clone` is the identity. A registration that is nil is never
-- stored. A map that is nil and one that is empty are both the empty list: the code makes a map
-- before it writes to it. Counts of clients are natural numbers: where the source counts down it
-- removes what has come to 0.
use llm_mux_fork.Prelude.{
  ℕ, ℤ, Bool, false, Option, Text, List, [], Map, txt, ◌++◌, is_empty, if◌then◌else◌,
}
use llm_mux_fork.Clock.{Time}

pub record ThinkingBudgets : Type 0 where
  pub low : ℤ
  pub medium : ℤ
  pub high : ℤ
  pub max : ℤ

pub record ThinkingSupport : Type 0 where
  pub min : ℤ
  pub max : ℤ
  pub zero_allowed : Bool
  pub dynamic_allowed : Bool
  pub default_level : Text
  pub budgets : ThinkingBudgets

pub record ModelInfo : Type 0 where
  pub id : Text
  pub object : Text
  pub created : ℤ
  pub owned_by : Text
  pub model_type : Text
  pub canonical_id : Text
  pub display_name : Text
  pub name : Text
  pub version : Text
  pub description : Text
  pub input_token_limit : ℤ
  pub output_token_limit : ℤ
  pub supported_generation_methods : List Text
  pub context_length : ℤ
  pub max_completion_tokens : ℤ
  pub supported_parameters : List Text
  pub thinking : Option ThinkingSupport
  pub priority : ℤ
  pub upstream_name : Text
  pub hidden : Bool

pub record ModelRegistration : Type 0 where
  pub info : Option ModelInfo
  pub count : ℕ
  pub last_updated : Time
  pub quota_exceeded_clients : Map (Option Time)
  pub providers : Map ℕ
  pub suspended_clients : Map Text

pub record ProviderModelMapping : Type 0 where
  pub provider : Text
  pub model_id : Text
  pub priority : ℤ

pub record RegistryState : Type 0 where
  pub models : Map ModelRegistration
  pub client_models : Map (List Text)
  pub client_providers : Map Text
  pub canonical_index : Map (List ProviderModelMapping)
  pub model_id_index : Map (List Text)
  pub show_provider_prefixes : Bool

abbrev pub new_registry_state : RegistryState
new_registry_state = record {
  models = [];
  client_models = [];
  client_providers = [];
  canonical_index = [];
  model_id_index = [];
  show_provider_prefixes = false;
}

unfoldable pub set_show_provider_prefixes : Bool → RegistryState → RegistryState
set_show_provider_prefixes enabled st = record st { show_provider_prefixes = enabled }

-- The key of the registration of a provider's model.
unfoldable pub provider_key : Text → Text → Text
unfolding is_empty
provider_key provider model_id =
    if is_empty provider then model_id else provider ++ (txt ":" ++ model_id)
