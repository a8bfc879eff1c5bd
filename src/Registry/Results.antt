-- ===== src/Registry/Results.antt =====
-- internal/provider/auth_registry.go: MarkResult and its cases. The shards of the registry are one
-- map: a credential's id decides its shard. The calls of the quota manager and of the hook are
-- listed. `off` is the switch quotaCooldownDisabled.
use llm_mux_fork.Prelude.{
  ℕ, ◌*◌, ◌==◌, ltb, ltb_ℤ, ℤ, pos, Bool, true, false, not, ◌||◌, if◌then◌else◌, Option, none, some,
  List, [], ◌∷◌, ◌++◌, Text, txt, is_empty, Map, lookup, insert, length,
}
use llm_mux_fork.Clock.{Time, Duration, zero_time, add, unix_nano, minute, hour, second}
use llm_mux_fork.Failure.Category.{ErrorCategory, categorize_error}
use llm_mux_fork.Failure.Error.{Error, clone_error, status_code, message}
use llm_mux_fork.Provider.Types.{Status, Result}
use llm_mux_fork.Provider.Cooldown.{next_quota_cooldown}
use llm_mux_fork.Registry.Entry.{
  AuthMetadata, clone_metadata, clear_error, ModelStateSnapshot, no_snapshot, clone_snapshot,
  with_state, AuthEntry,
}
use llm_mux_fork.Registry.Ops.{decrement_active_requests, set_cooldown, clear_cooldown}
use llm_mux_fork.Legacy.Failure.{category_of}
use llm_mux_fork.Legacy.MarkResult.{counts}

abbrev pub persist_queue_size : ℕ
persist_queue_size = 256

pub record AuthRegistry : Type 0 where
  pub entries : Map AuthEntry
  pub persist_queue : List Text
  pub index_counter : ℕ

-- RecordRequestEnd(id, provider, 0, false) of the quota manager, and the hook.
pub data Call : Type 0 where
  record_request_end : Text → Text → Call
  on_result : Call

-- A full queue drops the id.
unfoldable pub mark_dirty : Text → AuthRegistry → AuthRegistry
mark_dirty id r =
    if ltb (length r.persist_queue) persist_queue_size
    then record r { persist_queue = r.persist_queue ++ id ∷ [] }
    else r

unfoldable pub or_snapshot : Option ModelStateSnapshot → ModelStateSnapshot
or_snapshot none = no_snapshot
or_snapshot (some s) = s

-- UpdateModelState
unfoldable pub update_model_state :
    Text → (ModelStateSnapshot → ModelStateSnapshot) → AuthEntry → AuthEntry
unfolding with_state or_snapshot
update_model_state model f e = record e {
  model_states = with_state model (f (or_snapshot (lookup model e.model_states))) e.model_states;
}

unfoldable pub succeed_metadata : Time → AuthMetadata → AuthMetadata
unfolding clone_metadata
succeed_metadata now m = record (clone_metadata m) {
  last_error = none;
  status_message = txt "";
  status = Status.active;
  updated_at = now;
}

unfoldable pub handle_success_result : Time → Text → AuthEntry → AuthEntry × List Call
unfolding clear_error clear_cooldown update_model_state succeed_metadata
handle_success_result now model e =
    if is_empty model
    then (
      clear_cooldown (record e { metadata = clear_error now e.metadata; unavailable = false }),
      record_request_end e.id e.provider ∷ [],
    )
    else (
      record (update_model_state model
          (λ _. record no_snapshot { status = Status.active; updated_at = unix_nano now }) e) {
            metadata = succeed_metadata now e.metadata;
            unavailable = false;
          },
      [],
    )

-- The wait of a quota error, and the level after it.
unfoldable pub quota_wait : Bool → Time → Option Duration → ℤ → Time × ℤ
quota_wait off now (some d) level = (add now d, level)
quota_wait off now none level =
    let (cooldown, next_level) = next_quota_cooldown off level in
    (if ltb_ℤ (pos 0) cooldown then add now cooldown else zero_time, pos next_level)

-- The switch on the status, for every status but 429.
unfoldable pub retry_time : Time → ℕ → Time
retry_time now status =
    if status == 401 || status == 402 || status == 403
    then add now (pos (30 * minute))
    else if status == 404
    then add now (pos (12 * hour))
    else if status == 408 || status == 500 || status == 502 || status == 503 || status == 504
    then add now (pos minute)
    else add now (pos (30 * second))

unfoldable pub note_error : Option Error → ModelStateSnapshot → ModelStateSnapshot
note_error none s = s
note_error (some e) s = record s { last_error = clone_error (some e); status_message = e.message }

unfoldable pub fail_state :
    Bool → Time → Option Duration → Option Error → ModelStateSnapshot → ModelStateSnapshot
unfolding clone_snapshot note_error quota_wait status_code retry_time
fail_state off now retry_after error old =
    let s = note_error error (record (clone_snapshot old) {
      unavailable = true;
      status = Status.error;
      updated_at = unix_nano now;
    }) in
    let (next, level) = quota_wait off now retry_after old.backoff_level in
    if status_code error == 429
    then record s {
      next_retry_after = unix_nano next;
      quota_exceeded = true;
      quota_reason = txt "quota";
      quota_recover = unix_nano next;
      backoff_level = level;
    }
    else record s { next_retry_after = unix_nano (retry_time now (status_code error)) }

unfoldable pub fail_metadata : Time → Option Error → AuthMetadata → AuthMetadata
unfolding clone_metadata
fail_metadata now none m = record (clone_metadata m) { status = Status.error; updated_at = now }
fail_metadata now (some e) m = record (clone_metadata m) {
  status = Status.error;
  updated_at = now;
  last_error = clone_error (some e);
  status_message = e.message;
}

-- The switch of applyAuthLevelFailure on the metadata.
unfoldable pub apply_category :
    Bool → Time → Option Duration → ErrorCategory → AuthMetadata → AuthMetadata
unfolding quota_wait
apply_category off now retry_after ErrorCategory.auth_revoked m = record m {
  status_message = txt "oauth_token_revoked";
  status = Status.disabled;
}
apply_category off now retry_after ErrorCategory.auth_error m = record m {
  status_message = txt "unauthorized";
  next_retry_after = add now (pos (30 * minute));
}
apply_category off now retry_after ErrorCategory.quota_error m = record m {
  status_message = txt "quota exhausted";
  next_retry_after = (quota_wait off now retry_after (pos 0)).0;
}
apply_category off now retry_after ErrorCategory.not_found m = record m {
  status_message = txt "not_found";
  next_retry_after = add now (pos (12 * hour));
}
apply_category off now retry_after ErrorCategory.transient m = record m {
  status_message = txt "transient upstream error";
  next_retry_after = add now (pos minute);
}
apply_category off now retry_after ErrorCategory.user_error m = record m {
  status_message = txt "user_request_error";
  status = Status.active;
}
apply_category off now retry_after _ m = record m {
  status_message = if is_empty m.status_message then txt "request failed" else m.status_message;
}

-- The wait of the last lines, with no test for a cooldown of 0.
unfoldable pub cooldown_until : Bool → Time → Option Duration → Time
cooldown_until off now (some d) = add now d
cooldown_until off now none = add now (next_quota_cooldown off (pos 0)).0

unfoldable pub after_category :
    Bool → Time → Option Duration → ErrorCategory → AuthEntry → AuthEntry
unfolding set_cooldown cooldown_until
after_category off now retry_after ErrorCategory.auth_revoked e = record e { disabled = true }
after_category off now retry_after ErrorCategory.quota_error e =
    set_cooldown now (cooldown_until off now retry_after) e
after_category off now retry_after _ e = e

unfoldable pub failure_category : Option Error → ErrorCategory
failure_category none = ErrorCategory.unknown
failure_category (some x) = category_of (some x)

unfoldable pub apply_auth_level_failure :
    Bool → Time → Option Duration → Option Error → AuthEntry → AuthEntry
unfolding fail_metadata apply_category after_category failure_category
apply_auth_level_failure off now retry_after error e =
    let c = failure_category error in
    after_category off now retry_after c (record e {
      unavailable = true;
      metadata = apply_category off now retry_after c (fail_metadata now error e.metadata);
    })

unfoldable pub handle_failure_result :
    Bool → Time → Text → Option Duration → Option Error → AuthEntry → AuthEntry
unfolding apply_auth_level_failure update_model_state fail_metadata
handle_failure_result off now model retry_after error e =
    if is_empty model
    then apply_auth_level_failure off now retry_after error e
    else if not (counts (categorize_error (status_code error) (message error)))
    then e
    else (let failed = update_model_state model (fail_state off now retry_after error) e in
        record failed { metadata = fail_metadata now error failed.metadata })

unfoldable pub mark_entry : Bool → Time → Result → AuthEntry → AuthEntry × List Call
unfolding handle_success_result handle_failure_result decrement_active_requests
mark_entry off now r e = if r.success then handle_success_result now r.model e else (
  handle_failure_result off now r.model r.retry_after r.error (decrement_active_requests e),
  [],
)

unfoldable pub mark_found :
    Bool → Time → Result → AuthRegistry → Option AuthEntry → AuthRegistry × List Call
unfolding mark_entry mark_dirty
mark_found off now r registry none = (registry, [])
mark_found off now r registry (some e) =
    let (marked, calls) = mark_entry off now r e in
    (
      mark_dirty r.auth_id (record registry { entries = insert r.auth_id marked registry.entries }),
      calls ++ on_result ∷ [],
    )

unfoldable pub mark_result : Bool → Time → Result → AuthRegistry → AuthRegistry × List Call
unfolding mark_found
mark_result off now r registry =
    if is_empty r.auth_id
    then (registry, [])
    else mark_found off now r registry (lookup r.auth_id registry.entries)
