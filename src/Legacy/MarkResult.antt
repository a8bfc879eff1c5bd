-- ===== src/Legacy/MarkResult.antt =====
-- internal/provider/manager.go: markResultSync, under the manager's lock. The result is the
-- credential and the calls of other components that follow, in their order.
use llm_mux_fork.Prelude.{
  ℕ, ◌*◌, ◌==◌, pos, Bool, true, false, ◌||◌, if◌then◌else◌, Option, none, some, List, [], ◌∷◌,
  ◌++◌, Text, txt, is_empty, Map, lookup, insert,
}
use llm_mux_fork.Clock.{Time, Duration, add, minute, hour, second}
use llm_mux_fork.Failure.Category.{ErrorCategory, categorize_error}
use llm_mux_fork.Failure.Error.{Error, clone_error, status_code, message}
use llm_mux_fork.Provider.Types.{Status, Auth, ModelState, QuotaState, Result}
use llm_mux_fork.Groups.Resolve.{Resolvers}
use llm_mux_fork.Legacy.State.{
  ensure_model_state, reset_model_state, update_aggregated_availability, has_model_error,
  clear_auth_state_on_success,
}
use llm_mux_fork.Legacy.Groups.{propagate_quota_to_group, clear_quota_group_on_success}
use llm_mux_fork.Legacy.Failure.{quota_wait, apply_auth_failure_state}

-- Calls of the model registry, of the store, of the quota manager and of the hook.
pub data Call : Type 0 where
  clear_model_quota_exceeded set_model_quota_exceeded resume_client_model : Text → Call
  suspend_client_model : Text → Text → Call
  persist : Auth → Call
  record_quota_hit : Option Duration → Call
  on_result : Call

-- User errors and cancellations do not count against a credential.
unfoldable pub counts : ErrorCategory → Bool
counts ErrorCategory.user_error = false
counts ErrorCategory.client_canceled = false
counts _ = true

unfoldable pub put_state : Text → ModelState → Auth → Auth
put_state model s a = record a { model_states = insert model s a.model_states }

unfoldable pub settle_auth : Time → Auth → Auth
settle_auth now a = if has_model_error a now then record a { updated_at = now } else record a {
  last_error = none;
  status_message = txt "";
  status = Status.active;
  updated_at = now;
}

unfoldable pub clear_calls : List Text → List Call
clear_calls [] = []
clear_calls (m ∷ ms) = clear_model_quota_exceeded m ∷ resume_client_model m ∷ clear_calls ms

unfoldable pub suspend_calls : List Text → List Call
suspend_calls [] = []
suspend_calls (m ∷ ms) =
    set_model_quota_exceeded m ∷ suspend_client_model m (txt "quota_group") ∷ suspend_calls ms

unfoldable pub mark_success : Resolvers → Time → Text → Auth → Auth × List Call
unfolding settle_auth put_state clear_calls
mark_success resolvers now model a =
    let reset = put_state model (reset_model_state now (ensure_model_state a model)) a in
    let (cleared_auth, cleared) = clear_quota_group_on_success resolvers model now reset in
    let done = settle_auth now (update_aggregated_availability now cleared_auth) in
    if is_empty model
    then (clear_auth_state_on_success now a, persist (clear_auth_state_on_success now a) ∷ [])
    else (
      done,
      clear_calls cleared
          ++ persist done ∷ clear_model_quota_exceeded model ∷ resume_client_model model ∷ [],
    )

-- The lines before the switch on the status, for the state of the model and for the credential.
unfoldable pub note_state : Time → Bool → Option Error → ModelState → ModelState
note_state now counted none s =
    if counted
    then record s { unavailable = true; status = Status.error; updated_at = now }
    else record s { updated_at = now }
note_state now counted (some e) s =
    if counted
    then record s {
      unavailable = true;
      status = Status.error;
      updated_at = now;
      last_error = clone_error (some e);
      status_message = e.message;
    }
    else record s { updated_at = now }

unfoldable pub note_auth : Bool → Option Error → Auth → Auth
note_auth counted none a = a
note_auth counted (some e) a =
    if counted
    then record a { last_error = clone_error (some e); status_message = e.message }
    else a

-- The switch: the retry time of every status but 429.
unfoldable pub retry_time : Time → ℕ → Time
retry_time now status =
    if status == 401 || status == 402 || status == 403
    then add now (pos (30 * minute))
    else if status == 404
    then add now (pos (12 * hour))
    else if status == 408 || status == 500 || status == 502 || status == 503 || status == 504
    then add now (pos minute)
    else add now (pos (30 * second))

-- The calls after the lock is released: the model is suspended for these statuses.
unfoldable pub suspensions : ℕ → Text → List Call
suspensions status model =
    if status == 401
    then suspend_client_model model (txt "unauthorized") ∷ []
    else if status == 402 || status == 403
    then suspend_client_model model (txt "payment_required") ∷ []
    else if status == 404
    then suspend_client_model model (txt "not_found") ∷ []
    else if status == 429
    then set_model_quota_exceeded model ∷ suspend_client_model model (txt "quota") ∷ []
    else []

-- The case of status 429, which reaches the models of the group.
unfoldable pub exceed_quota :
    Resolvers → Bool → Time → Option Duration → Text → ModelState → Auth → Auth × List Text
unfolding put_state quota_wait
exceed_quota resolvers off now retry_after model s a =
    let (next, level) = quota_wait off now retry_after s.quota.backoff_level in
    let quota : QuotaState = record {
      exceeded = true;
      reason = txt "quota";
      next_recover_at = next;
      backoff_level = level;
    } in
    propagate_quota_to_group resolvers model quota next now
      (put_state model (record s { next_retry_after = next; quota = quota }) a)

unfoldable pub switch_status :
    Resolvers → Bool → Time → Option Duration → ℕ → Text → ModelState → Auth → Auth × List Text
unfolding exceed_quota retry_time put_state
switch_status resolvers off now retry_after status model s a =
    if status == 429
    then exceed_quota resolvers off now retry_after model s a
    else (put_state model (record s { next_retry_after = retry_time now status }) a, [])

unfoldable pub finish_failure : Time → Bool → Auth → Auth
finish_failure now counted a = update_aggregated_availability now (
    if counted
    then record a { status = Status.error; updated_at = now }
    else record a { updated_at = now })

unfoldable pub mark_model_failure :
    Resolvers → Bool → Time → Text → Option Duration → Option Error → Auth → Auth × List Call
unfolding note_state note_auth switch_status finish_failure suspensions suspend_calls counts
mark_model_failure resolvers off now model retry_after error a =
    let counted = counts (categorize_error (status_code error) (message error)) in
    let s = note_state now counted error (ensure_model_state a model) in
    let (switched, affected) =
      switch_status resolvers off now retry_after (status_code error) model s
        (note_auth counted error a) in
    let done = finish_failure now counted switched in
    (done, suspend_calls affected ++ persist done ∷ suspensions (status_code error) model)

unfoldable pub mark_failure :
    Resolvers → Bool → Time → Text → Option Duration → Option Error → Auth → Auth × List Call
unfolding mark_model_failure
mark_failure resolvers off now model retry_after error a =
    let failed = apply_auth_failure_state off error retry_after now a in
    if is_empty model
    then (failed, persist failed ∷ [])
    else mark_model_failure resolvers off now model retry_after error a

unfoldable pub quota_hits : Result → List Call
unfolding status_code
quota_hits r = if status_code r.error == 429 then record_quota_hit r.retry_after ∷ [] else []

unfoldable pub mark_found :
    Resolvers → Bool → Time → Result → Map Auth → Option Auth → Map Auth × List Call
unfolding mark_success mark_failure quota_hits
mark_found resolvers off now r auths none = (auths, quota_hits r ++ on_result ∷ [])
mark_found resolvers off now r auths (some a) =
    let (marked, calls) =
      if r.success
      then mark_success resolvers now r.model a
      else mark_failure resolvers off now r.model r.retry_after r.error a in
    (insert r.auth_id marked auths, calls ++ quota_hits r ++ on_result ∷ [])

unfoldable pub mark_result_sync : Resolvers → Bool → Time → Result → Map Auth → Map Auth × List Call
unfolding mark_found
mark_result_sync resolvers off now r auths =
    if is_empty r.auth_id
    then (auths, [])
    else mark_found resolvers off now r auths (lookup r.auth_id auths)
