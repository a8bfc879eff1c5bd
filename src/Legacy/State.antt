-- ===== src/Legacy/State.antt =====
-- internal/provider/state.go: the state of each model under a credential, and what a result does to
-- it. A `*Auth` is never nil here; a list of texts is the slice of affected models.
use llm_mux_fork.Prelude.{
  ltb_ℤ, ℤ, pos, Bool, true, false, not, ◌&&◌, ◌||◌, if◌then◌else◌, Option, none, some, [], ◌∷◌,
  Text, txt, Map, lookup, map_values,
}
use llm_mux_fork.Clock.{Time, zero_time, is_zero, after, before}
use llm_mux_fork.Failure.Error.{Error}
use llm_mux_fork.Provider.Types.{Status, Auth, ModelState, no_quota}
use llm_mux_fork.Legacy.Blocked.{is_disabled_status}

abbrev pub fresh_state : ModelState
fresh_state = record {
  status = Status.active;
  status_message = txt "";
  unavailable = false;
  next_retry_after = zero_time;
  last_error = none;
  quota = no_quota;
  updated_at = zero_time;
}

unfoldable pub or_fresh : Option ModelState → ModelState
or_fresh none = fresh_state
or_fresh (some s) = s

-- `ensureModelState`: the state, to be stored again by whoever changes it.
unfoldable pub ensure_model_state : Auth → Text → ModelState
unfolding or_fresh
ensure_model_state a model = or_fresh (lookup model a.model_states)

unfoldable pub reset_model_state : Time → ModelState → ModelState
reset_model_state now s = record s {
  unavailable = false;
  status = Status.active;
  status_message = txt "";
  next_retry_after = zero_time;
  last_error = none;
  quota = no_quota;
  updated_at = now;
}

-- The locals of updateAggregatedAvailability.
pub record Tally : Type 0 where
  pub all_unavailable : Bool
  pub earliest_retry : Time
  pub quota_exceeded : Bool
  pub quota_recover : Time
  pub max_backoff_level : ℤ

abbrev pub no_tally : Tally
no_tally = record {
  all_unavailable = true;
  earliest_retry = zero_time;
  quota_exceeded = false;
  quota_recover = zero_time;
  max_backoff_level = pos 0;
}

unfoldable pub is_state_unavailable : Time → ModelState → Bool
unfolding is_disabled_status
is_state_unavailable now s =
    if is_disabled_status s.status
    then true
    else s.unavailable && (is_zero s.next_retry_after || after s.next_retry_after now)

-- Whether the retry time of the state counts towards the earliest one.
unfoldable pub is_waiting : Time → ModelState → Bool
unfolding is_disabled_status
is_waiting now s =
    not (is_disabled_status s.status)
    && s.unavailable
    && not (is_zero s.next_retry_after)
    && after s.next_retry_after now

unfoldable pub tally_state : Time → Tally → ModelState → Tally
tally_state now t s = record {
  all_unavailable = t.all_unavailable && is_state_unavailable now s;
  earliest_retry =
      if is_waiting now s
        && (is_zero t.earliest_retry || before s.next_retry_after t.earliest_retry)
      then s.next_retry_after
      else t.earliest_retry;
  quota_exceeded = t.quota_exceeded || s.quota.exceeded;
  quota_recover =
      if s.quota.exceeded
        && (is_zero t.quota_recover
            || (not (is_zero s.quota.next_recover_at)
                && before s.quota.next_recover_at t.quota_recover))
      then s.quota.next_recover_at
      else t.quota_recover;
  max_backoff_level =
      if s.quota.exceeded && ltb_ℤ t.max_backoff_level s.quota.backoff_level
      then s.quota.backoff_level
      else t.max_backoff_level;
}

unfoldable pub tally_states : Time → Tally → Map ModelState → Tally
tally_states now t [] = t
tally_states now t ((k, s) ∷ m) = tally_states now (tally_state now t s) m

-- The branch that changes a state: a wait that is over is cleared.
unfoldable pub settle_state : Time → ModelState → ModelState
unfolding is_disabled_status
settle_state now s =
    if not (is_disabled_status s.status)
      && s.unavailable
      && not (is_zero s.next_retry_after)
      && not (after s.next_retry_after now)
    then record s { unavailable = false; next_retry_after = zero_time }
    else s

unfoldable pub apply_tally : Tally → Auth → Auth
apply_tally t a = record a {
  unavailable = t.all_unavailable;
  next_retry_after = if t.all_unavailable then t.earliest_retry else zero_time;
  quota =
      if t.quota_exceeded
      then record {
        exceeded = true;
        reason = txt "quota";
        next_recover_at = t.quota_recover;
        backoff_level = t.max_backoff_level;
      }
      else no_quota;
}

unfoldable pub update_aggregated_availability : Time → Auth → Auth
unfolding tally_states apply_tally settle_state
update_aggregated_availability now a = elim a.model_states [
  | [] ↦ a
  | e ∷ m ↦
      apply_tally (tally_states now no_tally a.model_states)
        (record a { model_states = map_values (settle_state now) a.model_states })
]

unfoldable pub is_some_error : Option Error → Bool
is_some_error none = false
is_some_error (some e) = true

unfoldable pub is_error_status : Status → Bool
is_error_status Status.error = true
is_error_status _ = false

unfoldable pub has_state_error : Time → ModelState → Bool
unfolding is_some_error is_error_status
has_state_error now s =
    is_some_error s.last_error
    || (is_error_status s.status
        && s.unavailable
        && (is_zero s.next_retry_after || after s.next_retry_after now))

unfoldable pub has_error_in : Time → Map ModelState → Bool
unfolding has_state_error
has_error_in now [] = false
has_error_in now ((k, s) ∷ m) = has_state_error now s || has_error_in now m

unfoldable pub has_model_error : Auth → Time → Bool
unfolding has_error_in
has_model_error a now = has_error_in now a.model_states

unfoldable pub clear_auth_state_on_success : Time → Auth → Auth
clear_auth_state_on_success now a = record a {
  unavailable = false;
  status = Status.active;
  status_message = txt "";
  quota = no_quota;
  last_error = none;
  next_retry_after = zero_time;
  updated_at = now;
}
