-- ===== src/Quota/Manager.antt =====
-- internal/provider/quota_manager.go: the states of the credentials in QuotaManager, their operations,
-- the test whether a credential is available, and the error where none is. The shards are one map:
-- a credential's id decides its shard, and each operation is on one id.
use llm_mux_fork.Prelude.{
  ◌+◌, ◌-◌, ◌*◌, leb, ltb, ltb_ℤ, ℤ, pos, Bool, true, false, not, ◌&&◌, ◌||◌, if◌then◌else◌, Option,
  none, some, List, [], ◌∷◌, Text, Map, lookup, insert,
}
use llm_mux_fork.Clock.{Time, Duration, zero_time, is_zero, after, before, sub, to_time, minute}
use llm_mux_fork.Provider.Types.{Auth}
use llm_mux_fork.Groups.Resolve.{Resolvers}
use llm_mux_fork.Legacy.Blocked.{is_auth_blocked_for_model}
use llm_mux_fork.Quota.State.{
  AuthQuotaState, no_state, RealQuotaSnapshot, Strategy, get_strategy, on_quota_hit, record_usage,
  trigger_refresh, quota_exhausted_threshold, quota_recovered_threshold,
}

unfoldable pub get_cooldown_until : AuthQuotaState → Time
unfolding to_time
get_cooldown_until s = to_time s.cooldown_until

-- `getState` is `lookup`.
unfoldable pub or_new : Option AuthQuotaState → AuthQuotaState
or_new none = no_state
or_new (some s) = s

-- `getOrCreateState`, and what is done to the state.
unfoldable pub update_state :
    (AuthQuotaState → AuthQuotaState) → Text → Map AuthQuotaState → Map AuthQuotaState
unfolding or_new
update_state f id states = insert id (f (or_new (lookup id states))) states

-- RecordRequestStart
unfoldable pub increment_active : Text → Map AuthQuotaState → Map AuthQuotaState
unfolding update_state
increment_active = update_state (λ s. record s { active_requests = s.active_requests + 1 })

unfoldable pub end_request : Strategy → ℤ → Bool → AuthQuotaState → AuthQuotaState
unfolding record_usage
end_request strategy tokens failed s =
    let ended = record s { active_requests = s.active_requests - 1 } in
    let cleared = record ended { cooldown_until = pos 0 } in
    if failed
    then ended
    else if ltb_ℤ (pos 0) tokens
    then record_usage strategy tokens cleared
    else cleared

unfoldable pub record_request_end : Text → Text → ℤ → Bool → Map AuthQuotaState → Map AuthQuotaState
unfolding update_state end_request get_strategy
record_request_end id provider tokens failed =
    update_state (end_request (get_strategy provider) tokens failed) id

unfoldable pub record_quota_hit :
    Time → Text → Text → Option Duration → Map AuthQuotaState → Map AuthQuotaState
unfolding update_state on_quota_hit trigger_refresh get_strategy
record_quota_hit now id provider cooldown =
    update_state (λ s. trigger_refresh (on_quota_hit (get_strategy provider) now cooldown s)) id

pub data AvailabilityStatus : Type 0 where
  availability_unknown availability_available availability_blocked : AvailabilityStatus

abbrev pub real_quota_freshness : ℤ
real_quota_freshness = pos (5 * minute)

-- The look at the fetched quota; `clock` is what time.Since reads.
unfoldable pub real_availability : Time → Option RealQuotaSnapshot → AvailabilityStatus
real_availability clock none = availability_unknown
real_availability clock (some real) =
    if not (ltb_ℤ (sub clock real.fetched_at) real_quota_freshness)
    then availability_unknown
    else if leb real.remaining_fraction quota_exhausted_threshold
    then availability_blocked
    else if ltb quota_recovered_threshold real.remaining_fraction
    then availability_available
    else availability_unknown

unfoldable pub state_availability : Time → Time → Option AuthQuotaState → AvailabilityStatus
unfolding get_cooldown_until real_availability
state_availability now clock none = availability_unknown
state_availability now clock (some s) =
    if before now (get_cooldown_until s)
    then availability_blocked
    else real_availability clock s.real_quota

-- The clean-up of the index of groups inside isAuthBlockedForModel is left out: it changes no answer.
unfoldable pub check_availability :
    Resolvers → Option AuthQuotaState → Auth → Text → Time → Time → AvailabilityStatus
unfolding state_availability
check_availability resolvers s a model now clock =
    if (is_auth_blocked_for_model resolvers a model now).0.blocked
    then availability_blocked
    else state_availability now clock s

unfoldable pub is_available : AvailabilityStatus → Bool
is_available availability_blocked = false
is_available _ = true

unfoldable pub filter_available :
    Resolvers → Map AuthQuotaState → Text → Time → Time → List Auth → List Auth
unfolding is_available
filter_available resolvers states model now clock [] = []
filter_available resolvers states model now clock (a ∷ auths) =
    let rest = filter_available resolvers states model now clock auths in
    if a.disabled
    then rest
    else if is_available (check_availability resolvers (lookup a.id states) a model now clock)
    then a ∷ rest
    else rest

unfoldable pub earlier : Time → Time → Time
earlier earliest t = if is_zero earliest || before t earliest then t else earliest

unfoldable pub cooldown_wait : Time → AuthQuotaState → Time → Time
unfolding earlier get_cooldown_until
cooldown_wait now s earliest =
    if after (get_cooldown_until s) now then earlier earliest (get_cooldown_until s) else earliest

-- One round of the loop of buildRetryError.
unfoldable pub retry_wait : Time → Option AuthQuotaState → Time → Time
unfolding cooldown_wait
retry_wait now none earliest = earliest
retry_wait now (some s) earliest = elim s.real_quota [
  | none ↦ cooldown_wait now s earliest
  | some real ↦
      if ltb quota_exhausted_threshold real.remaining_fraction && before (get_cooldown_until s) now
      then earliest
      else if not (is_zero real.window_reset_at) && after real.window_reset_at now
      then earlier earliest real.window_reset_at
      else cooldown_wait now s earliest
]

unfoldable pub retry_waits : Time → Map AuthQuotaState → List Auth → Time → Time
unfolding retry_wait
retry_waits now states [] earliest = earliest
retry_waits now states (a ∷ auths) earliest =
    retry_waits now states auths (retry_wait now (lookup a.id states) earliest)

pub data RetryError : Type 0 where
  quota_exhausted : Duration → RetryError
  auth_unavailable : RetryError

unfoldable pub build_retry_error : Time → Map AuthQuotaState → List Auth → RetryError
unfolding retry_waits
build_retry_error now states auths =
    let earliest = retry_waits now states auths zero_time in
    if not (is_zero earliest) then quota_exhausted (sub earliest now) else auth_unavailable
