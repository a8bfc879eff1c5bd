-- ===== src/Quota/Config.antt =====
-- internal/provider/quota_config.go: the configurations of the providers.
use llm_mux_fork.Prelude.{ℕ, ◌*◌, Bool, true, false, none, some, Text, txt, [], ◌∷◌, Map, lookup}
use llm_mux_fork.Clock.{hour, minute, second}

pub data QuotaType : Type 0 where
  requests tokens : QuotaType

-- The resolver of groups of a configuration is not read by Pick and is left out.
pub record ProviderQuotaConfig : Type 0 where
  pub provider : Text
  pub window_duration : ℕ
  pub quota_type : QuotaType
  pub estimated_limit : ℕ
  pub stagger_bucket : ℕ
  pub sticky_enabled : Bool
  pub fill_first : Bool

abbrev pub default_provider_quota_configs : Map ProviderQuotaConfig
default_provider_quota_configs =
    (
      txt "antigravity",
      record {
        provider = txt "antigravity";
        window_duration = 5 * hour;
        quota_type = tokens;
        estimated_limit = 1_000_000;
        stagger_bucket = 30 * minute;
        sticky_enabled = false;
        fill_first = false;
      },
    )
    ∷ (
      txt "claude",
      record {
        provider = txt "claude";
        window_duration = 5 * hour;
        quota_type = tokens;
        estimated_limit = 500_000;
        stagger_bucket = 30 * minute;
        sticky_enabled = true;
        fill_first = false;
      },
    )
    ∷ (
      txt "copilot",
      record {
        provider = txt "copilot";
        window_duration = 24 * hour;
        quota_type = requests;
        estimated_limit = 10_000;
        stagger_bucket = 2 * hour;
        sticky_enabled = true;
        fill_first = false;
      },
    )
    ∷ (
      txt "gemini",
      record {
        provider = txt "gemini";
        window_duration = minute;
        quota_type = requests;
        estimated_limit = 60;
        stagger_bucket = 10 * second;
        sticky_enabled = true;
        fill_first = false;
      },
    )
    ∷ []

unfoldable pub default_fallback : Text → ProviderQuotaConfig
default_fallback provider = record {
  provider = provider;
  window_duration = 5 * hour;
  quota_type = tokens;
  estimated_limit = 500_000;
  stagger_bucket = 30 * minute;
  sticky_enabled = true;
  fill_first = false;
}

unfoldable pub get_provider_quota_config : Text → ProviderQuotaConfig
unfolding default_fallback lookup
get_provider_quota_config provider = elim (lookup provider default_provider_quota_configs) [
  | none ↦ default_fallback provider
  | some config ↦ config
]
