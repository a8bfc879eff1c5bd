-- ===== src/Tests/Provider.antt =====
-- Concrete credentials for internal/provider/retry.go and provider_selection.go.
use llm_mux_fork.Prelude.{
  ℕ, ◌+◌, ◌≤◌, ◌≡◌, refl, All, ◌<◌, ◌≢◌, ◌↔◌, Bool, true, false, some, List, [], ◌∷◌, Text, txt,
  text_eq, is_empty, to_lower, trim_space, In, here,
}
use llm_mux_fork.Clock.{minute, hour}
use llm_mux_fork.Failure.Category.{quota_error, should_fallback}
use llm_mux_fork.Provider.Types.{Auth}
use llm_mux_fork.Provider.Names.{IsDistinct, IsNormal, normalize_providers, normalize_providers_lem}
use llm_mux_fork.Provider.Waits.{
  provider_set, auth_wait, closest_cooldown_wait, should_retry_after_error,
}
use llm_mux_fork.Provider.Retries.{
  HasChance, closest_cooldown_wait_lem, should_retry_after_error_lem,
}
use llm_mux_fork.Groups.Resolve.{default_resolvers}
use llm_mux_fork.Legacy.Blocked.{is_auth_blocked_for_model}
use llm_mux_fork.Tests.Samples.{now, sample_auth}

abbrev all_supported : Text → Text → Bool
all_supported id model = true

abbrev waiting_for : ℕ → Auth
waiting_for n = record sample_auth { unavailable = true; next_retry_after = now + n }

abbrev auths : List Auth
auths = waiting_for hour ∷ waiting_for minute ∷ []

abbrev providers : List Text
providers = txt " Antigravity " ∷ txt "claude" ∷ txt "antigravity" ∷ []

antigravity_named : is_empty (to_lower (trim_space (txt " Antigravity "))) ≡ false
unfolding is_empty to_lower trim_space
antigravity_named = refl

normalize_providers_lem_example :
    IsDistinct (normalize_providers providers)
    × All (IsNormal providers) (normalize_providers providers)
    × In (to_lower (trim_space (txt " Antigravity "))) (normalize_providers providers)
normalize_providers_lem_example =
    normalize_providers_lem providers (txt " Antigravity ") here antigravity_named

hour_wait :
    auth_wait all_supported default_resolvers now (provider_set providers) [] (waiting_for hour)
    ≡ some hour
unfolding auth_wait provider_set is_auth_blocked_for_model is_empty to_lower trim_space text_eq
hour_wait = refl

closest_cooldown_wait_lem_example :
    (k : ℕ) × (b : Auth) × (closest_cooldown_wait all_supported default_resolvers now providers []
        auths
      ≡ some k)
    × (k ≤ hour)
    × In b auths
    × (auth_wait all_supported default_resolvers now (provider_set providers) [] b ≡ some k)
closest_cooldown_wait_lem_example =
    closest_cooldown_wait_lem all_supported default_resolvers now providers [] auths
      (waiting_for hour) hour here hour_wait

should_retry_after_error_lem_example :
    (should_retry_after_error all_supported default_resolvers now
        (some (quota_error, 429))
        0
        3
        providers
        []
        auths
      ≡ true)
    ↔ ((0 + 1 < 3)
        × (should_fallback quota_error ≡ true)
        × (◌≢◌ {A = ℕ} 429 200)
        × HasChance all_supported default_resolvers now providers [] auths)
should_retry_after_error_lem_example =
    should_retry_after_error_lem all_supported default_resolvers now quota_error 429 0 3 providers
      [] auths
