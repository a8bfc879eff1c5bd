-- ===== src/Tests/Groups.antt =====
-- Concrete models and groups for internal/provider/quota_group.go.
use llm_mux_fork.Prelude.{◌+◌, ◌≡◌, refl, false, [], ◌∷◌, txt, is_empty, to_lower, lookup}
use llm_mux_fork.Tests.Samples.{now}
use llm_mux_fork.Clock.{minute, hour}
use llm_mux_fork.Provider.Types.{QuotaGroupIndex}
use llm_mux_fork.Groups.Family.{extract_model_family, IsFamily, extract_model_family-IsFamily}
use llm_mux_fork.Groups.Resolve.{Resolvers, is_some, InStep}

abbrev index : QuotaGroupIndex
index =
    (
      txt "gemini",
      record {
        next_retry_after = now + minute;
        next_recover_at = now + hour;
        source_model = txt "gemini-2.5-pro";
      },
    )
    ∷ []

extract_model_family-IsFamily_example :
    IsFamily (to_lower (txt "Claude-Sonnet-4")) (extract_model_family (txt "Claude-Sonnet-4"))
extract_model_family-IsFamily_example = extract_model_family-IsFamily (txt "Claude-Sonnet-4")

claude_named : is_empty (txt "claude") ≡ false
unfolding is_empty
claude_named = refl

abbrev no_resolvers : Resolvers
no_resolvers = record { by_provider = []; providers = [] }

no_resolvers-InStep : InStep no_resolvers
unfolding lookup is_some
no_resolvers-InStep key = refl
