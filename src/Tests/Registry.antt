-- ===== src/Tests/Registry.antt =====
-- Concrete entries and results for internal/provider/auth_entry.go and auth_registry.go.
use llm_mux_fork.Prelude.{
  ◌+◌, ◌-◌, ◌++◌, insert, ◌≤◌, ◌≡◌, refl, pos, true, false, if◌then◌else◌, none, some, [], ◌∷◌,
  Text, txt, arith, In, here, there, inl, inr, text_eq, not, ◌&&◌, is_empty, lookup, map_values,
  contains, to_lower, has_prefix,
}
use mathlib.Core.Option
use llm_mux_fork.Clock.{Time, unix_nano, from_unix_nano, add, IsModern, minute, second}
use llm_mux_fork.Failure.Category.{
  unknown, categorize_error, is_context_canceled_error, is_oauth_revoked_error, is_user_error,
  is_quota_error, categorize_http_status,
}
use llm_mux_fork.Failure.Error.{clone_error, status_code, message}
use llm_mux_fork.Provider.Types.{Status, Result, BlockReason, free, Auth, ModelState, no_quota}
use llm_mux_fork.Tests.Samples.{now, sample_auth}
use llm_mux_fork.Registry.Entry.{AuthEntry}
use llm_mux_fork.Registry.Ops.{
  increment_active_requests, is_blocked_for_model, new_auth_entry, to_auth, is_disabled_status,
  is_in_cooldown,
}
use llm_mux_fork.Registry.Results.{AuthRegistry, on_result, mark_entry, mark_result}
use llm_mux_fork.Legacy.MarkResult.{counts}
use llm_mux_fork.Registry.Pick.{classify, waiting, picked, cooling_down, pick, reset_in}
use llm_mux_fork.Registry.Choice.{IsFree}
use llm_mux_fork.Registry.Wait.{pick-IsFree, pick-earliest}
use llm_mux_fork.Registry.Blocking.{
  mark_entry-is_blocked_for_model, mark_entry_success, mark_entry_other_model,
}
use llm_mux_fork.Registry.Marks.{
  named_entry, queued, lookup-mark_result, mark_entry-active_requests,
}
use llm_mux_fork.Registry.Roundtrip.{
  IsStoredState, returned_state, returned_quota, to_auth-new_auth_entry,
}

abbrev gpt : Text
gpt = txt "gpt-4o"

abbrev claude_sonnet : Text
claude_sonnet = txt "claude-sonnet-4"

abbrev auth : Auth
auth = record sample_auth { priority = pos 5 }

abbrev entry : AuthEntry
entry = new_auth_entry now none auth

abbrev cooling_entry : AuthEntry
cooling_entry = new_auth_entry now none (record auth { next_retry_after = now + minute })

abbrev quota_failure : Result
quota_failure = record {
  auth_id = txt "a";
  provider = txt "antigravity";
  model = gpt;
  success = false;
  retry_after = some (pos minute);
  error = some (record {
    code = txt "";
    message = txt "resource exhausted";
    retryable = true;
    http_status = 429;
    err_category = unknown;
  });
}

abbrev success : Result
success = record quota_failure { success = true; retry_after = none; error = none }

minute_later-IsModern : IsModern (add now (pos minute))
minute_later-IsModern = record { late = omega arith; early = omega arith }

gpt_named : is_empty gpt ≡ false
unfolding is_empty
gpt_named = refl

apart : text_eq gpt claude_sonnet ≡ false
unfolding text_eq
apart = refl

entry-IsFree : IsFree gpt now entry
unfolding new_auth_entry is_blocked_for_model is_in_cooldown is_empty lookup text_eq map_values
entry-IsFree = (refl, refl, refl)

cooling_entry-waiting : classify gpt now cooling_entry ≡ waiting (now + minute)
unfolding new_auth_entry classify is_in_cooldown unix_nano from_unix_nano
cooling_entry-waiting = refl

cooling_entry_not-IsFree : ¬ IsFree gpt now cooling_entry
unfolding new_auth_entry is_in_cooldown unix_nano from_unix_nano
cooling_entry_not-IsFree (on, warm, unblocked) = cc warm

pick-IsFree_example :
    (best : AuthEntry) × In best (cooling_entry ∷ entry ∷ [])
    × IsFree gpt now best
    × (best.quota.active_requests ≤ entry.quota.active_requests)
    × (pick (txt "antigravity") gpt now (cooling_entry ∷ entry ∷ [])
        ≡ picked (increment_active_requests best))
pick-IsFree_example =
    pick-IsFree (txt "antigravity") gpt now (cooling_entry ∷ entry ∷ []) entry (there here)
      entry-IsFree

pick-earliest_example :
    (t : Time) × (e : AuthEntry) × In e (cooling_entry ∷ [])
    × (classify gpt now e ≡ waiting t)
    × (t ≤ now + minute)
    × (pick (txt "antigravity") gpt now (cooling_entry ∷ [])
        ≡ cooling_down gpt (txt "antigravity") (reset_in t now))
pick-earliest_example =
    pick-earliest (txt "antigravity") gpt now (now + minute) (cooling_entry ∷ []) cooling_entry
      (cooling_entry_not-IsFree, tt) here cooling_entry-waiting

mark_entry-is_blocked_for_model_example :
    is_blocked_for_model (mark_entry false now quota_failure entry).0 gpt (now + second)
    ≡ record { blocked = true; reason = BlockReason.cooldown; next = now + minute }
unfolding status_code new_auth_entry categorize_error counts is_empty contains to_lower has_prefix
    message is_context_canceled_error is_oauth_revoked_error is_user_error is_quota_error
    categorize_http_status
mark_entry-is_blocked_for_model_example =
    mark_entry-is_blocked_for_model false now (now + second) minute quota_failure entry refl
      gpt_named refl refl refl refl minute_later-IsModern

mark_entry_success_example :
    is_blocked_for_model (mark_entry false now success entry).0 gpt now ≡ free
unfolding new_auth_entry
mark_entry_success_example = mark_entry_success false now now success entry refl gpt_named refl

mark_entry_other_model_example :
    is_blocked_for_model (mark_entry false now quota_failure entry).0 claude_sonnet now
    ≡ is_blocked_for_model entry claude_sonnet now
unfolding new_auth_entry is_disabled_status
mark_entry_other_model_example =
    mark_entry_other_model false now now quota_failure entry claude_sonnet refl gpt_named apart refl

abbrev registry : AuthRegistry
registry = record {
  entries = (txt "a", entry) ∷ (txt "b", cooling_entry) ∷ [];
  persist_queue = [];
  index_counter = 2;
}

lookup-mark_result_example :
    (lookup (txt "b") (mark_result false now quota_failure registry).0.entries ≡ (
      if text_eq (txt "a") (txt "b") && not (is_empty (txt "a"))
      then Option.map
          (λ e. (mark_entry false now quota_failure e).0)
          (lookup (txt "b") registry.entries)
      else lookup (txt "b") registry.entries))
    × (mark_result false now quota_failure registry ≡ elim (named_entry quota_failure registry) [
      | none ↦ (registry, [])
      | some e ↦ (
        record registry {
          entries = insert (txt "a") (mark_entry false now quota_failure e).0 registry.entries;
          persist_queue = queued (txt "a") registry.persist_queue;
        },
        (mark_entry false now quota_failure e).1 ++ on_result ∷ [],
      )
    ])
lookup-mark_result_example = lookup-mark_result false now quota_failure registry (txt "b")

mark_entry-active_requests_example :
    (mark_entry false now quota_failure entry).0.quota.active_requests
    ≡ entry.quota.active_requests - 1
mark_entry-active_requests_example = mark_entry-active_requests false now quota_failure entry

abbrev state : ModelState
state = record {
  status = Status.error;
  status_message = txt "quota";
  unavailable = true;
  next_retry_after = now + minute;
  last_error = none;
  quota = no_quota;
  updated_at = now;
}

state-IsStoredState : IsStoredState state
state-IsStoredState = record {
  next_retry_after = inr minute_later-IsModern;
  next_recover_at = inl refl;
  updated_at = inr (record { late = omega arith; early = omega arith });
}

to_auth-new_auth_entry_example :
    to_auth (new_auth_entry now none (record auth { model_states = (gpt, state) ∷ [] }))
    ≡ record auth {
      priority = pos 0;
      quota = returned_quota auth;
      last_error = clone_error none;
      model_states = map_values returned_state ((gpt, state) ∷ []);
      index_assigned = true;
    }
to_auth-new_auth_entry_example =
    to_auth-new_auth_entry now none (record auth { model_states = (gpt, state) ∷ [] }) (inl refl)
      (inl refl) (state-IsStoredState, tt)
