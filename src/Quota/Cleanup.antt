-- ===== src/Quota/Cleanup.antt =====
-- internal/provider/quota_manager.go: cleanup forgets what no answer depends on.
use llm_mux_fork.Prelude.{
  ◌≤◌, ◌≡◌, refl, true, Bool-cases, inl, inr, if◌then◌else◌, Option, none, some, Text, text_eq,
  text_eq_iff, [], ◌∷◌, Map, lookup, IsKeyed, subst, ◌∙◌, ap, arith,
}
use llm_mux_fork.Clock.{Time}
use llm_mux_fork.Quota.State.{AuthQuotaState}
use llm_mux_fork.Quota.Manager.{get_cooldown_until, state_availability, real_availability}
use llm_mux_fork.Quota.Select.{is_stale, cleanup}

-- What stays of a state.
abbrev kept : Time → Option AuthQuotaState → Option AuthQuotaState
kept now none = none
kept now (some s) = if is_stale now s then none else some s

lookup-cleanup :
    (now : Time) (id : Text) (states : Map AuthQuotaState)
    → IsKeyed states
    → lookup id (cleanup now states) ≡ kept now (lookup id states)
unfolding lookup cleanup
lookup-cleanup now id [] d = refl
lookup-cleanup now id ((j, s) ∷ states) d =
    let ih = lookup-cleanup now id states d.1 in
    elim (Bool-cases (text_eq j id)) [
      | inr other ↦ elim (Bool-cases (is_stale now s)) [
        | inl stale ↦ rw (other, stale) ih
        | inr stays ↦ rw (other, stays) (rw other ih)
      ]
      | inl same ↦
          let gone = subst (λ i. lookup i states ≡ none) ((text_eq_iff j id).0 same) d.0 in
          elim (Bool-cases (is_stale now s)) [
            | inl stale ↦ rw (same, stale) (ih ∙ ap (kept now) gone)
            | inr stays ↦ rw (same, stays) (rw same refl)
          ]
    ]

stale_cooldown :
    (now later : Time) (s : AuthQuotaState)
    → now ≤ later
    → is_stale now s ≡ true
    → get_cooldown_until s ≤ later
unfolding is_stale
stale_cooldown now later s h stale = ground arith

kept_unseen :
    (now later clock : Time) (s : AuthQuotaState)
    → now ≤ later
    → s.real_quota ≡ none
    → state_availability later clock (kept now (some s)) ≡ state_availability later clock (some s)
unfolding state_availability real_availability
kept_unseen now later clock s h unfetched = elim (Bool-cases (is_stale now s)) [
  | inr stays ↦ rw stays refl
  | inl stale ↦ rw stale (ground (arith, stale_cooldown now later s h stale, unfetched))
]

-- The clean-up is not seen: a credential whose quota was not fetched is as available as before, then
-- and later. A credential is there once.
pub state_availability-cleanup :
    (now later clock : Time) (id : Text) (states : Map AuthQuotaState) (s : AuthQuotaState)
    → IsKeyed states
    → now ≤ later
    → lookup id states ≡ some s
    → s.real_quota ≡ none
    → state_availability later clock (lookup id (cleanup now states))
      ≡ state_availability later clock (lookup id states)
state_availability-cleanup now later clock id states s d h e unfetched =
    rw (lookup-cleanup now id states d, e) (kept_unseen now later clock s h unfetched)
