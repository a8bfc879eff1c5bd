-- ===== src/Legacy/Groups.antt =====
-- internal/provider/state.go: a quota error of one model reaches the models of its group, and so does
-- a success.
use llm_mux_fork.Prelude.{
  Bool, true, not, ◌&&◌, ◌||◌, if◌then◌else◌, Option, none, some, List, [], ◌∷◌, Text, txt, text_eq,
  is_empty, Map,
}
use llm_mux_fork.Clock.{Time}
use llm_mux_fork.Provider.Types.{Status, Auth, ModelState, QuotaState, Runtime, QuotaGroupIndex}
use llm_mux_fork.Groups.Resolve.{Resolvers, has_quota_grouping, resolve_quota_group}
use llm_mux_fork.Groups.Index.{
  get_index, put_index, get_or_create_index, set_group_blocked, clear_group,
}
use llm_mux_fork.Legacy.State.{reset_model_state}

-- Another model whose group is the given one.
unfoldable pub in_group : Resolvers → Text → Text → Text → Text → Bool
in_group resolvers provider source group model =
    not (text_eq model source) && text_eq (resolve_quota_group resolvers provider model) group

unfoldable pub exceed_state : QuotaState → Time → Time → ModelState → ModelState
exceed_state quota next_retry now s = record s {
  unavailable = true;
  next_retry_after = next_retry;
  quota = quota;
  status = Status.error;
  status_message = txt "quota_group_exceeded";
  updated_at = now;
}

-- The loop over the states: those that `chosen` picks are changed and listed.
unfoldable pub change_states :
    (Text → ModelState → Bool)
    → (ModelState → ModelState)
    → Map ModelState
    → Map ModelState × List Text
change_states chosen f [] = ([], [])
change_states chosen f ((k, s) ∷ m) =
    let (rest, ks) = change_states chosen f m in
    if chosen k s then ((k, f s) ∷ rest, k ∷ ks) else ((k, s) ∷ rest, ks)

unfoldable pub propagate_quota_to_group :
    Resolvers → Text → QuotaState → Time → Time → Auth → Auth × List Text
unfolding change_states exceed_state
propagate_quota_to_group resolvers source quota next_retry now a =
    let group = resolve_quota_group resolvers a.provider source in
    let (runtime, idx) = get_or_create_index a.runtime in
    let blocked = set_group_blocked group source next_retry quota.next_recover_at idx in
    let (states, affected) =
      change_states (λ k s. in_group resolvers a.provider source group k)
        (exceed_state quota next_retry now) a.model_states in
    if is_empty source || not (has_quota_grouping resolvers a.provider) || is_empty group
    then (a, [])
    else (record a { runtime = put_index blocked runtime; model_states = states }, affected)

unfoldable pub clear_index : Text → Runtime → Option QuotaGroupIndex → Runtime
clear_index group runtime none = runtime
clear_index group runtime (some idx) = put_index (clear_group group idx) runtime

unfoldable pub clear_quota_group_on_success : Resolvers → Text → Time → Auth → Auth × List Text
unfolding change_states clear_index
clear_quota_group_on_success resolvers source now a =
    let group = resolve_quota_group resolvers a.provider source in
    let (states, cleared) =
      change_states
        (λ k s.
          in_group resolvers a.provider source group k
          && (text_eq s.status_message (txt "quota_group_exceeded") || s.quota.exceeded))
        (reset_model_state now) a.model_states in
    if is_empty source || not (has_quota_grouping resolvers a.provider) || is_empty group
    then (a, [])
    else (
      record a {
        runtime = clear_index group a.runtime (get_index a.runtime);
        model_states = states;
      },
      cleared,
    )
