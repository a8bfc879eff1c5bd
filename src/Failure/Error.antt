-- ===== src/Failure/Error.antt =====
-- internal/provider/errors.go: the error value. A `*Error` is an option; the status is a number.
use llm_mux_fork.Prelude.{ℕ, Bool, Option, none, some, Text, txt, is_empty, if◌then◌else◌, ◌++◌}
use llm_mux_fork.Failure.Category.{ErrorCategory, unknown}

pub record Error : Type 0 where
  pub code : Text
  pub message : Text
  pub retryable : Bool
  pub http_status : ℕ
  pub err_category : ErrorCategory

-- `(*Error).Error()`
unfoldable pub error_text : Option Error → Text
error_text none = txt ""
error_text (some e) = if is_empty e.code then e.message else e.code ++ txt ": " ++ e.message

-- `(*Error).StatusCode()`, and statusCodeFromResult
unfoldable pub status_code : Option Error → ℕ
status_code none = 0
status_code (some e) = e.http_status

-- `(*Error).Category()`
unfoldable pub category : Option Error → ErrorCategory
category none = unknown
category (some e) = e.err_category

unfoldable pub message : Option Error → Text
message none = txt ""
message (some e) = e.message

-- cloneError (internal/provider/state.go), written out at many other places: the category is lost.
unfoldable pub clone_error : Option Error → Option Error
clone_error none = none
clone_error (some e) = some (record e { err_category = unknown })
