-- ===== src/Legacy/Spread.antt =====
-- internal/provider/manager.go and state.go: a quota error of one model and the other models of its
-- group.
use mathlib.Core.Option
use llm_mux_fork.Prelude.{
  ℕ, ◌≤◌, ◌<◌, ◌≡◌, refl, ap, ◌∙◌, Bool, true, false, Option, none, some, ℤ, pos, Text, txt,
  text_eq, text_eq_iff, is_empty, lookup, lookup-insert, arith,
}
use llm_mux_fork.Clock.{Time, Duration, add}
use llm_mux_fork.Failure.Category.{categorize_error}
use llm_mux_fork.Failure.Error.{Error, status_code, message}
use llm_mux_fork.Provider.Types.{Status, Auth, ModelState, QuotaState, BlockReason}
use llm_mux_fork.Groups.Resolve.{Resolvers, has_quota_grouping, resolve_quota_group}
use llm_mux_fork.Legacy.Blocked.{
  is_disabled_status, state_verdict, model_verdict, is_auth_blocked_for_model, cooldown_verdict,
  next_time,
}
use llm_mux_fork.Legacy.State.{settle_state, ensure_model_state}
use llm_mux_fork.Legacy.Groups.{in_group, exceed_state, propagate_quota_to_group}
use llm_mux_fork.Legacy.Failure.{quota_wait}
use llm_mux_fork.Legacy.MarkResult.{
  counts, put_state, note_auth, note_state, exceed_quota, switch_status, finish_failure,
  mark_model_failure, mark_failure,
}
use llm_mux_fork.Legacy.Settle.{lookup-change_states, update_states, lookup-update_aggregated}

-- A state of the group, settled at the time of the error, until the wait is over.
state_verdict-exceed_state :
    (now t until : Time) (level : ℤ) (s : ModelState)
    → now ≤ t
    → t < until
    → (let quota : QuotaState = record {
      exceeded = true;
      reason = txt "quota";
      next_recover_at = until;
      backoff_level = level;
    } in
        state_verdict t (settle_state now (exceed_state quota until now s)))
      ≡ record { blocked = true; reason = BlockReason.cooldown; next = until }
unfolding state_verdict settle_state exceed_state cooldown_verdict next_time is_disabled_status
state_verdict-exceed_state now t until level s h k = ground (arith, h, k)

-- Propagation to the group: what it leaves, and the state of a model of the group after it.
propagate_quota_to_group_lem :
    (resolvers : Resolvers) (source other : Text) (quota : QuotaState) (until now : Time) (a : Auth)
    (s : ModelState)
    → is_empty source ≡ false
    → has_quota_grouping resolvers a.provider ≡ true
    → is_empty (resolve_quota_group resolvers a.provider source) ≡ false
    → in_group resolvers a.provider source (resolve_quota_group resolvers a.provider source) other
      ≡ true
    → lookup other a.model_states ≡ some s
    → (let spread = (propagate_quota_to_group resolvers source quota until now a).0 in
        (spread.disabled ≡ a.disabled)
        × (spread.status ≡ a.status)
        × (lookup other spread.model_states ≡ some (exceed_state quota until now s)))
unfolding propagate_quota_to_group
propagate_quota_to_group_lem resolvers source other quota until now a s named grouped has_group
      member h =
    rw (named, grouped, has_group)
      (
        refl,
        refl,
        lookup-change_states _ (exceed_state quota until now) other a.model_states
            ∙ rw (h, member) refl,
      )

note_auth_lem :
    (counted : Bool) (error : Option Error) (a : Auth)
    → ((note_auth counted error a).disabled ≡ a.disabled)
      × ((note_auth counted error a).status ≡ a.status)
      × ((note_auth counted error a).provider ≡ a.provider)
      × ((note_auth counted error a).model_states ≡ a.model_states)
unfolding note_auth
note_auth_lem counted none a = (refl, refl, refl, refl)
note_auth_lem true (some e) a = (refl, refl, refl, refl)
note_auth_lem false (some e) a = (refl, refl, refl, refl)

finish_failure_lem :
    (now : Time) (counted : Bool) (a : Auth) (k : Text)
    → is_disabled_status a.status ≡ false
    → ((finish_failure now counted a).disabled ≡ a.disabled)
      × (is_disabled_status (finish_failure now counted a).status ≡ false)
      × (lookup k (finish_failure now counted a).model_states
          ≡ Option.map (settle_state now) (lookup k a.model_states))
unfolding finish_failure is_disabled_status
finish_failure_lem now true a k h =
    (let b : Auth = record a { status = Status.error; updated_at = now } in
      let (on, status, _) = update_states now b b.model_states refl in
      (on, ap is_disabled_status status, lookup-update_aggregated now b k))
finish_failure_lem now false a k h =
    (let b : Auth = record a { updated_at = now } in
      let (on, status, _) = update_states now b b.model_states refl in
      (on, ap is_disabled_status status ∙ h, lookup-update_aggregated now b k))

is_auth_blocked-state_verdict :
    (resolvers : Resolvers) (a : Auth) (model : Text) (t : Time) (s : ModelState)
    → a.disabled ≡ false
    → is_disabled_status a.status ≡ false
    → is_empty model ≡ false
    → lookup model a.model_states ≡ some s
    → (is_auth_blocked_for_model resolvers a model t).0 ≡ state_verdict t s
unfolding is_auth_blocked_for_model model_verdict
is_auth_blocked-state_verdict resolvers a model t s on active named h =
    rw (on, active, named, h) refl

lookup-put_state :
    (model other : Text) (s : ModelState) (a : Auth)
    → text_eq model other ≡ false
    → lookup other (put_state model s a).model_states ≡ lookup other a.model_states
unfolding put_state
lookup-put_state model other s a apart = rw (lookup-insert, apart) refl

in_group-apart :
    (resolvers : Resolvers) (provider source group model : Text)
    → in_group resolvers provider source group model ≡ true
    → text_eq source model ≡ false
unfolding in_group
in_group-apart resolvers provider source group model h =
    ground (arith, h, text_eq_iff source model, text_eq_iff model source)

-- The quota of a model after status 429 with a wait until the given time.
abbrev exceeded_until : Time → ℤ → QuotaState
exceeded_until until level = record {
  exceeded = true;
  reason = txt "quota";
  next_recover_at = until;
  backoff_level = level;
}

exceed_quota_lem :
    (resolvers : Resolvers) (off : Bool) (now : Time) (d : Duration) (model other : Text)
    (s₀ s : ModelState) (a : Auth)
    → is_empty model ≡ false
    → has_quota_grouping resolvers a.provider ≡ true
    → is_empty (resolve_quota_group resolvers a.provider model) ≡ false
    → in_group resolvers a.provider model (resolve_quota_group resolvers a.provider model) other
      ≡ true
    → lookup other a.model_states ≡ some s
    → (let spread = (exceed_quota resolvers off now (some d) model s₀ a).0 in
        (spread.disabled ≡ a.disabled)
        × (spread.status ≡ a.status)
        × (lookup other spread.model_states
            ≡ some (
                exceed_state
                  (exceeded_until (add now d) s₀.quota.backoff_level)
                  (add now d)
                  now
                  s)))
unfolding exceed_quota quota_wait put_state
exceed_quota_lem resolvers off now d model other s₀ s a named grouped has_group member h =
    propagate_quota_to_group_lem resolvers model other _ (add now d) now (put_state model _ a) s
      named grouped has_group member
      (lookup-put_state model other _ a (in_group-apart resolvers a.provider model _ other member)
        ∙ h)

mark_failure_429 :
    (resolvers : Resolvers) (off : Bool) (now : Time) (d : Duration) (model : Text)
    (error : Option Error) (a : Auth)
    → status_code error ≡ 429
    → is_empty model ≡ false
    → (let counted = counts (categorize_error (status_code error) (message error)) in
        (mark_failure resolvers off now model (some d) error a).0
        ≡ finish_failure now counted
            (exceed_quota resolvers off now
              (some d)
              model
              (note_state now counted error (ensure_model_state a model))
              (note_auth counted error a)).0)
unfolding mark_failure mark_model_failure switch_status
mark_failure_429 resolvers off now d model error a status named = rw (named, status) refl

-- A quota error with status 429 and a wait of `n` nanoseconds, for a model of a provider that groups its
-- models: until the wait is over every other model of the group that has a state is in cooldown, with
-- the end of the wait as the next time. The credential is not disabled.
pub mark_failure-is_auth_blocked_for_model :
    (resolvers : Resolvers) (off : Bool) (now t : Time) (n : ℕ) (model other : Text)
    (error : Option Error) (a : Auth) (s : ModelState)
    → status_code error ≡ 429
    → is_empty model ≡ false
    → is_empty other ≡ false
    → has_quota_grouping resolvers a.provider ≡ true
    → is_empty (resolve_quota_group resolvers a.provider model) ≡ false
    → in_group resolvers a.provider model (resolve_quota_group resolvers a.provider model) other
      ≡ true
    → lookup other a.model_states ≡ some s
    → a.disabled ≡ false
    → is_disabled_status a.status ≡ false
    → now ≤ t
    → t < add now (pos n)
    → (is_auth_blocked_for_model resolvers
        (mark_failure resolvers off now model (some (pos n)) error a).0
        other
        t).0
      ≡ record { blocked = true; reason = BlockReason.cooldown; next = add now (pos n) }
mark_failure-is_auth_blocked_for_model resolvers off now t n model other error a s status named
      other_named grouped has_group member h on active before_end early =
    (let counted = counts (categorize_error (status_code error) (message error)) in
      let (on_1, active_1, same_provider, same_states) = note_auth_lem counted error a in
      let (on_2, active_2, spread) =
        exceed_quota_lem resolvers off now (pos n) model other
          (note_state now counted error (ensure_model_state a model)) s (note_auth counted error a)
          named (rw same_provider grouped) (rw same_provider has_group) (rw same_provider member)
          (ap (lookup other) same_states ∙ h) in
      let (on_3, active_3, settled) =
        finish_failure_lem now counted _ other
          (ap is_disabled_status (active_2 ∙ active_1) ∙ active) in
      rw (mark_failure_429 resolvers off now (pos n) model error a status named) (
        is_auth_blocked-state_verdict resolvers _ other t _ (on_3 ∙ on_2 ∙ on_1 ∙ on) active_3
          other_named (settled ∙ ap (Option.map (settle_state now)) spread)
        ∙ state_verdict-exceed_state now t (add now (pos n)) _ s before_end early))
