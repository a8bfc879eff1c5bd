-- ===== src/Tests/Failure.antt =====
-- Concrete errors for internal/provider/error_category.go.
use llm_mux_fork.Prelude.{ℕ, ◌≤◌, ◌<◌, ◌≡◌, ◌≢◌, ◌↔◌, ◌⊎◌, true}
use llm_mux_fork.Failure.Category.{should_fallback, is_user_fault, categorize_http_status}
use llm_mux_fork.Failure.Laws.{categorize_http_status-fallback_iff}

abbrev service_unavailable : ℕ
service_unavailable = 503

categorize_http_status-fallback_iff_example :
    ((should_fallback (categorize_http_status service_unavailable) ≡ true) ↔ (
      (service_unavailable ≡ 401)
      ⊎ (service_unavailable ≡ 402)
      ⊎ (service_unavailable ≡ 403)
      ⊎ (service_unavailable ≡ 429)
      ⊎ (500 ≤ service_unavailable)))
    × ((is_user_fault (categorize_http_status service_unavailable) ≡ true) ↔ (
        (400 ≤ service_unavailable)
        × (service_unavailable < 500)
        × (service_unavailable ≢ 401)
        × (service_unavailable ≢ 402)
        × (service_unavailable ≢ 403)
        × (service_unavailable ≢ 429)))
categorize_http_status-fallback_iff_example =
    categorize_http_status-fallback_iff service_unavailable
