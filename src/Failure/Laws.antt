-- ===== src/Failure/Laws.antt =====
-- What callers of internal/provider/error_category.go rely on.
use llm_mux_fork.Prelude.{
  is_empty-to_lower, ℕ, ◌<◌, ◌≤◌, ◌≡◌, refl, ◌≢◌, ◌↔◌, ◌⊎◌, true, false, ◌&&◌, ◌||◌, not, arith,
  Text, to_lower, to_lower_idem,
}
use llm_mux_fork.Failure.Category.{
  ErrorCategory, should_fallback, should_disable_auth, should_suspend_auth, is_user_fault,
  categorize_http_status, is_oauth_revoked_error, is_user_error, is_quota_error,
  is_context_canceled_error, categorize_error,
}

-- An error that may be retried elsewhere is not the user's fault and does not disable the
-- credential for good; and what suspends a credential may always be retried elsewhere.
pub fallback_exclusive :
    (c : ErrorCategory)
    → ((should_fallback c && (is_user_fault c || should_disable_auth c)) ≡ false)
      × ((should_suspend_auth c && not (should_fallback c)) ≡ false)
unfolding should_fallback should_disable_auth should_suspend_auth is_user_fault
fallback_exclusive c = (ground arith, ground arith)

-- By status alone, a request falls back to another credential exactly at 401, 402, 403, 429 and
-- from 500 on; it is the user's fault exactly at the other statuses from 400 to 499.
pub categorize_http_status-fallback_iff :
    (s : ℕ)
    → ((should_fallback (categorize_http_status s) ≡ true)
        ↔ ((s ≡ 401) ⊎ (s ≡ 402) ⊎ (s ≡ 403) ⊎ (s ≡ 429) ⊎ (500 ≤ s)))
      × ((is_user_fault (categorize_http_status s) ≡ true)
          ↔ ((400 ≤ s) × (s < 500) × (s ≢ 401) × (s ≢ 402) × (s ≢ 403) × (s ≢ 429)))
unfolding should_fallback is_user_fault categorize_http_status
categorize_http_status-fallback_iff s =
    ((λ h. ground arith, λ h. ground arith), (λ h. ground arith, λ h. ground arith))

-- The case of the letters of a message does not matter.
pub categorize_error-to_lower :
    (s : ℕ) (m : Text) → categorize_error s (to_lower m) ≡ categorize_error s m
unfolding categorize_error is_oauth_revoked_error is_user_error is_quota_error
    is_context_canceled_error
categorize_error-to_lower s m = rw (is_empty-to_lower m, to_lower_idem m) refl
