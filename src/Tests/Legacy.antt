-- ===== src/Tests/Legacy.antt =====
-- Concrete states of models for internal/provider/state.go and manager.go.
use mathlib.Core.List.{Permᴰ}
use llm_mux_fork.Prelude.{arith, ◌+◌, ◌≡◌, refl, true, none, [], ◌∷◌, txt, Map}
use llm_mux_fork.Clock.{zero_time, Time, minute, hour}
use llm_mux_fork.Provider.Types.{Status, ModelState, no_quota}
use llm_mux_fork.Prelude.{
  pos, Text, false, some, lookup, insert, text_eq, to_lower, trim_space, is_empty,
}
use llm_mux_fork.Failure.Category.{unknown}
use llm_mux_fork.Failure.Error.{Error, status_code}
use llm_mux_fork.Provider.Types.{Auth, BlockReason}
use llm_mux_fork.Groups.Family.{extract_model_family, before_delimiter}
use llm_mux_fork.Groups.Resolve.{default_resolvers, has_quota_grouping, resolve_quota_group}
use llm_mux_fork.Legacy.Blocked.{is_disabled_status, is_auth_blocked_for_model}
use llm_mux_fork.Legacy.Groups.{in_group}
use llm_mux_fork.Legacy.MarkResult.{mark_failure}
use llm_mux_fork.Legacy.Spread.{mark_failure-is_auth_blocked_for_model}
use llm_mux_fork.Tests.Samples.{now, sample_auth}
use llm_mux_fork.Legacy.State.{no_tally, tally_states, is_waiting}
use llm_mux_fork.Legacy.Aggregate.{tally_states-Perm}

abbrev waiting_state : Time → ModelState
waiting_state until = record {
  status = Status.error;
  status_message = txt "quota";
  unavailable = true;
  next_retry_after = until;
  last_error = none;
  quota = record no_quota { exceeded = true; next_recover_at = until };
  updated_at = now;
}

abbrev states : Map ModelState
states = (txt "x", waiting_state (now + hour)) ∷ (txt "y", waiting_state (now + minute)) ∷ []

abbrev swapped : Map ModelState
swapped = (txt "y", waiting_state (now + minute)) ∷ (txt "x", waiting_state (now + hour)) ∷ []

tally_states-Perm_example : tally_states now no_tally states ≡ tally_states now no_tally swapped
tally_states-Perm_example = tally_states-Perm now states swapped ∣ Permᴰ.swap refl refl ∣₁

y_waits : is_waiting now (waiting_state (now + minute)) ≡ true
unfolding is_waiting
y_waits = refl

abbrev pro : Text
pro = txt "gemini-2.5-pro"

abbrev flash : Text
flash = txt "gemini-2.5-flash"

abbrev quiet_state : ModelState
quiet_state = record (waiting_state zero_time) {
  status = Status.active;
  unavailable = false;
  quota = no_quota;
}

abbrev auth : Auth
auth = record sample_auth { model_states = (flash, quiet_state) ∷ [] }

abbrev exhausted : Error
exhausted = record {
  code = txt "";
  message = txt "resource exhausted";
  retryable = true;
  http_status = 429;
  err_category = unknown;
}

status_429 : status_code (some exhausted) ≡ 429
unfolding status_code
status_429 = refl

pro_named : is_empty pro ≡ false
unfolding is_empty
pro_named = refl

flash_named : is_empty flash ≡ false
unfolding is_empty
flash_named = refl

grouped : has_quota_grouping default_resolvers (txt "antigravity") ≡ true
unfolding has_quota_grouping default_resolvers lookup text_eq to_lower trim_space is_empty insert
grouped = refl

has_group : is_empty (resolve_quota_group default_resolvers (txt "antigravity") pro) ≡ false
unfolding resolve_quota_group default_resolvers lookup text_eq to_lower trim_space is_empty insert
    extract_model_family before_delimiter
has_group = refl

member :
    in_group default_resolvers
      (txt "antigravity")
      pro
      (resolve_quota_group default_resolvers (txt "antigravity") pro)
      flash
    ≡ true
unfolding in_group resolve_quota_group default_resolvers lookup text_eq to_lower trim_space is_empty
    insert extract_model_family before_delimiter
member = refl

has_state : lookup flash auth.model_states ≡ some quiet_state
unfolding lookup text_eq
has_state = refl

not_disabled : is_disabled_status auth.status ≡ false
unfolding is_disabled_status
not_disabled = refl

mark_failure-is_auth_blocked_for_model_example :
    (is_auth_blocked_for_model default_resolvers
      (mark_failure default_resolvers false now pro (some (pos minute)) (some exhausted) auth).0
      flash
      now).0
    ≡ record { blocked = true; reason = BlockReason.cooldown; next = now + minute }
mark_failure-is_auth_blocked_for_model_example =
    mark_failure-is_auth_blocked_for_model default_resolvers false now now minute pro flash
      (some exhausted) auth quiet_state status_429 pro_named flash_named grouped has_group member
      has_state refl not_disabled (omega arith) (omega arith)
