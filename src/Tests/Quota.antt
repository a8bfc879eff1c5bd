-- ===== src/Tests/Quota.antt =====
-- Concrete states for internal/provider/quota_manager.go.
use llm_mux_fork.Prelude.{
  ◌+◌, ◌-◌, ◌≤◌, ◌≡◌, refl, pos, false, none, some, [], ◌∷◌, txt, Map, lookup, arith, text_eq,
}
use llm_mux_fork.Tests.Samples.{now}
use llm_mux_fork.Clock.{unix_nano, from_unix_nano, IsModern, minute, second, hour}
use llm_mux_fork.Quota.State.{
  AuthQuotaState, no_state, RealQuotaSnapshot, handle_quota_snapshot_update, exhausted_until,
}
use llm_mux_fork.Quota.Manager.{
  get_cooldown_until, record_quota_hit, record_request_end, availability_blocked,
  state_availability, real_availability,
}
use llm_mux_fork.Quota.Hits.{
  record_quota_hit-state_availability, lookup-record_request_end,
  handle_quota_snapshot_update_expired,
}

-- Its cooldown was over an hour ago.
abbrev expired_state : AuthQuotaState
expired_state = record no_state { active_requests = 2; cooldown_until = unix_nano (now - hour) }

abbrev states : Map AuthQuotaState
states = (txt "a", expired_state) ∷ []

abbrev used_up : RealQuotaSnapshot
used_up = record {
  remaining_fraction = 10_000;
  remaining_tokens = pos 0;
  window_reset_at = now + hour;
  fetched_at = now;
}

record_quota_hit-state_availability_example :
    state_availability (now + second) now (
      lookup
        (txt "a")
        (record_quota_hit now (txt "a") (txt "antigravity") (some (pos minute)) states))
    ≡ availability_blocked
record_quota_hit-state_availability_example =
    record_quota_hit-state_availability now (now + second) now (txt "a") (txt "antigravity") minute
      states (omega arith) (record { late = omega arith; early = omega arith }) (omega arith)

found : lookup (txt "a") states ≡ some expired_state
unfolding lookup text_eq
found = refl

lookup-record_request_end_example :
    (after : AuthQuotaState) × (lookup
        (txt "a")
        (record_request_end (txt "a") (txt "claude") (pos 100) false states)
      ≡ some after)
    × (after.active_requests ≡ 1)
    × (state_availability now now (some after) ≡ real_availability now none)
lookup-record_request_end_example =
    lookup-record_request_end (txt "a") (txt "claude") (pos 100) states expired_state found now now

expired-IsModern : IsModern (get_cooldown_until expired_state)
unfolding get_cooldown_until unix_nano from_unix_nano
expired-IsModern = record { late = omega arith; early = omega arith }

expired_over : get_cooldown_until expired_state ≤ now
unfolding get_cooldown_until unix_nano from_unix_nano
expired_over = omega arith

exhausted-IsModern : IsModern (exhausted_until now used_up)
unfolding exhausted_until
exhausted-IsModern = record { late = omega arith; early = omega arith }

handle_quota_snapshot_update_expired_example :
    handle_quota_snapshot_update now used_up expired_state ≡ expired_state
handle_quota_snapshot_update_expired_example =
    handle_quota_snapshot_update_expired now used_up expired_state (omega arith) exhausted-IsModern
      expired-IsModern expired_over
