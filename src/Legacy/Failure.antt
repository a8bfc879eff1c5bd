-- ===== src/Legacy/Failure.antt =====
-- internal/provider/state.go: applyAuthFailureState, a failure that belongs to no model.
use llm_mux_fork.Prelude.{
  ◌*◌, ltb_ℤ, ℤ, pos, Bool, true, false, if◌then◌else◌, Option, none, some, txt, is_empty,
}
use llm_mux_fork.Clock.{Time, Duration, zero_time, add, minute, hour}
use llm_mux_fork.Failure.Category.{ErrorCategory, categorize_error}
use llm_mux_fork.Failure.Error.{Error, clone_error, status_code, message, category}
use llm_mux_fork.Provider.Types.{Status, Auth}
use llm_mux_fork.Provider.Cooldown.{next_quota_cooldown}

unfoldable pub or_category : ErrorCategory → ErrorCategory → ErrorCategory
or_category ErrorCategory.unknown d = d
or_category c d = c

-- The category that an error carries, or the one of its status and message.
unfoldable pub category_of : Option Error → ErrorCategory
unfolding or_category category status_code message
category_of e = or_category (category e) (categorize_error (status_code e) (message e))

-- The lines before the switch: the error is noted, whatever its category.
unfoldable pub note_failure : Time → Option Error → Auth → Auth
note_failure now none a = record a { unavailable = true; status = Status.error; updated_at = now }
note_failure now (some e) a = record a {
  unavailable = true;
  status = Status.error;
  updated_at = now;
  last_error = clone_error (some e);
  status_message = if is_empty e.message then a.status_message else e.message;
}

-- The wait of a quota error, and the level after it.
unfoldable pub quota_wait : Bool → Time → Option Duration → ℤ → Time × ℤ
quota_wait disabled now (some d) level = (add now d, level)
quota_wait disabled now none level =
    let (cooldown, next_level) = next_quota_cooldown disabled level in
    (if ltb_ℤ (pos 0) cooldown then add now cooldown else zero_time, pos next_level)

unfoldable pub apply_category : Bool → Time → Option Duration → ErrorCategory → Auth → Auth
unfolding quota_wait
apply_category off now retry_after ErrorCategory.auth_revoked a = record a {
  status_message = txt "oauth_token_revoked";
  disabled = true;
  status = Status.disabled;
}
apply_category off now retry_after ErrorCategory.auth_error a = record a {
  status_message = txt "unauthorized";
  next_retry_after = add now (pos (30 * minute));
}
apply_category off now retry_after ErrorCategory.quota_error a =
    let (next, level) = quota_wait off now retry_after a.quota.backoff_level in
    record a {
      status_message = txt "quota exhausted";
      quota = record {
        exceeded = true;
        reason = txt "quota";
        next_recover_at = next;
        backoff_level = level;
      };
      next_retry_after = next;
    }
apply_category off now retry_after ErrorCategory.not_found a = record a {
  status_message = txt "not_found";
  next_retry_after = add now (pos (12 * hour));
}
apply_category off now retry_after ErrorCategory.transient a = record a {
  status_message = txt "transient upstream error";
  next_retry_after = add now (pos minute);
}
apply_category off now retry_after ErrorCategory.user_error a = record a {
  status_message = txt "user_request_error";
  unavailable = false;
  status = Status.active;
}
apply_category off now retry_after _ a = record a {
  status_message = if is_empty a.status_message then txt "request failed" else a.status_message;
}

unfoldable pub apply_auth_failure_state : Bool → Option Error → Option Duration → Time → Auth → Auth
unfolding note_failure category_of apply_category
apply_auth_failure_state off error retry_after now a =
    apply_category off now retry_after (category_of error) (note_failure now error a)
