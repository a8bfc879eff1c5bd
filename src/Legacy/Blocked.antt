-- ===== src/Legacy/Blocked.antt =====
-- internal/provider/selector.go: isAuthBlockedForModel, the test whether a credential may be used.
-- The lazy clean-up of the index of quota groups is the second part of the result.
use llm_mux_fork.Prelude.{
  Bool, true, false, not, ◌&&◌, ◌||◌, if◌then◌else◌, Option, none, some, Text, is_empty, lookup,
}
use llm_mux_fork.Clock.{Time, zero_time, is_zero, after, before}
use llm_mux_fork.Provider.Types.{
  Status, Auth, ModelState, QuotaState, QuotaGroupIndex, Runtime, Verdict, BlockReason, free,
}
use llm_mux_fork.Groups.Resolve.{Resolvers, has_quota_grouping, resolve_quota_group}
use llm_mux_fork.Groups.Index.{get_index, put_index, is_group_blocked}

unfoldable pub is_disabled_status : Status → Bool
is_disabled_status Status.disabled = true
is_disabled_status _ = false

abbrev disabled_verdict : Verdict
disabled_verdict = record { blocked = true; reason = BlockReason.is_disabled; next = zero_time }

-- When a wait that is not over ends: at the recovery of the quota, where that is still to come.
unfoldable pub next_time : Time → Time → QuotaState → Time
next_time now next_retry_after quota =
    let next =
      if not (is_zero quota.next_recover_at) && after quota.next_recover_at now
      then quota.next_recover_at
      else next_retry_after in
    if before next now then now else next

unfoldable pub cooldown_verdict : Time → Time → QuotaState → Verdict
unfolding next_time
cooldown_verdict now next_retry_after quota = record {
  blocked = true;
  reason = if quota.exceeded then BlockReason.cooldown else BlockReason.other;
  next = next_time now next_retry_after quota;
}

unfoldable pub state_verdict : Time → ModelState → Verdict
unfolding is_disabled_status cooldown_verdict
state_verdict now s =
    if is_disabled_status s.status
    then disabled_verdict
    else if s.unavailable && is_zero s.next_retry_after
    then record { blocked = true; reason = BlockReason.other; next = zero_time }
    else if s.unavailable && after s.next_retry_after now
    then cooldown_verdict now s.next_retry_after s.quota
    else free

-- The look at the quota group, for a model without a state.
unfoldable pub index_verdict : Time → Text → Runtime → Option QuotaGroupIndex → Verdict × Runtime
index_verdict now group runtime none = (free, runtime)
index_verdict now group runtime (some idx) =
    let (blocked, next, idx') = is_group_blocked group now idx in
    (
      if blocked
          then record { blocked = true; reason = BlockReason.cooldown; next = next }
          else free,
      put_index idx' runtime,
    )

unfoldable pub group_verdict : Resolvers → Time → Text → Auth → Verdict × Runtime
unfolding index_verdict
group_verdict resolvers now model a =
    let group = resolve_quota_group resolvers a.provider model in
    if has_quota_grouping resolvers a.provider && not (is_empty group)
    then index_verdict now group a.runtime (get_index a.runtime)
    else (free, a.runtime)

unfoldable pub model_verdict :
    Resolvers → Time → Text → Auth → Option ModelState → Verdict × Runtime
unfolding state_verdict group_verdict
model_verdict resolvers now model a (some s) = (state_verdict now s, a.runtime)
model_verdict resolvers now model a none = group_verdict resolvers now model a

unfoldable pub auth_verdict : Time → Auth → Verdict
unfolding cooldown_verdict
auth_verdict now a =
    if a.unavailable && after a.next_retry_after now
    then cooldown_verdict now a.next_retry_after a.quota
    else free

unfoldable pub is_auth_blocked_for_model : Resolvers → Auth → Text → Time → Verdict × Runtime
unfolding model_verdict auth_verdict is_disabled_status
is_auth_blocked_for_model resolvers a model now =
    if a.disabled || is_disabled_status a.status
    then (disabled_verdict, a.runtime)
    else if is_empty model
    then (auth_verdict now a, a.runtime)
    else model_verdict resolvers now model a (lookup model a.model_states)
