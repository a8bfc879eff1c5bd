-- ===== src/Failure/Category.antt =====
-- internal/provider/error_category.go: the classes of errors and how a status and a message are
-- put into them. A message is its text; a status is a number, 0 where there is none.
use llm_mux_fork.Prelude.{
  ℕ, Bool, true, false, ◌&&◌, ◌||◌, ◌==◌, leb, ltb, if◌then◌else◌, Text, txt, is_empty, to_lower,
  contains,
}

pub data ErrorCategory : Type 0 where
  unknown user_error auth_error auth_revoked quota_error : ErrorCategory
  transient not_found client_canceled : ErrorCategory

pub to_string : ErrorCategory → Text
to_string user_error = txt "user_error"
to_string auth_error = txt "auth_error"
to_string auth_revoked = txt "auth_revoked"
to_string quota_error = txt "quota_error"
to_string transient = txt "transient"
to_string not_found = txt "not_found"
to_string client_canceled = txt "client_canceled"
to_string unknown = txt "unknown"

unfoldable pub should_fallback : ErrorCategory → Bool
should_fallback quota_error = true
should_fallback transient = true
should_fallback auth_error = true
should_fallback _ = false

unfoldable pub should_disable_auth : ErrorCategory → Bool
should_disable_auth auth_revoked = true
should_disable_auth _ = false

unfoldable pub should_suspend_auth : ErrorCategory → Bool
should_suspend_auth auth_error = true
should_suspend_auth quota_error = true
should_suspend_auth _ = false

unfoldable pub is_user_fault : ErrorCategory → Bool
is_user_fault user_error = true
is_user_fault not_found = true
is_user_fault client_canceled = true
is_user_fault _ = false

unfoldable pub categorize_http_status : ℕ → ErrorCategory
categorize_http_status status =
    if status == 400
    then user_error
    else if status == 401
    then auth_error
    else if status == 402 || status == 403
    then quota_error
    else if status == 404
    then not_found
    else if status == 429
    then quota_error
    else if status == 500 || status == 502 || status == 503 || status == 504
    then transient
    else if leb 400 status && ltb status 500
    then user_error
    else if leb 500 status
    then transient
    else unknown

unfoldable pub is_oauth_revoked_error : Text → Bool
is_oauth_revoked_error msg =
    if is_empty msg
    then false
    else (let lower = to_lower msg in
        contains lower (txt "invalid_grant")
        || contains lower (txt "token has been expired or revoked")
        || contains lower (txt "token revoked")
        || contains lower (txt "oauth_token_revoked"))

unfoldable pub is_user_error : Text → Bool
is_user_error msg =
    if is_empty msg
    then false
    else (let lower = to_lower msg in
        contains lower (txt "invalid_argument")
        || contains lower (txt "invalid request")
        || contains lower (txt "malformed")
        || contains lower (txt "missing required")
        || contains lower (txt "invalid json")
        || contains lower (txt "please use a valid")
        || contains lower (txt "not supported")
        || contains lower (txt "must be non-empty")
        || contains lower (txt "cannot be empty"))

unfoldable pub is_quota_error : Text → Bool
is_quota_error msg =
    if is_empty msg
    then false
    else (let lower = to_lower msg in
        contains lower (txt "resource_exhausted")
        || contains lower (txt "quota")
        || contains lower (txt "rate limit")
        || contains lower (txt "rate_limit_error")
        || contains lower (txt "too many requests")
        || contains lower (txt "credit balance is too low")
        || contains lower (txt "overloaded_error"))

unfoldable pub is_context_canceled_error : Text → Bool
is_context_canceled_error msg =
    if is_empty msg
    then false
    else (let lower = to_lower msg in
        contains lower (txt "context canceled") || contains lower (txt "context deadline exceeded"))

unfoldable pub categorize_error : ℕ → Text → ErrorCategory
categorize_error status msg =
    if is_context_canceled_error msg
    then client_canceled
    else if is_oauth_revoked_error msg
    then auth_revoked
    else if is_user_error msg
    then user_error
    else if is_quota_error msg
    then quota_error
    else categorize_http_status status
