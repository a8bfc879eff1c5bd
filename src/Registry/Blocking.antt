-- ===== src/Registry/Blocking.antt =====
-- internal/provider/auth_registry.go and auth_entry.go: what a result does to the test that Pick
-- applies.
use llm_mux_fork.Prelude.{
  ℕ, ◌≡◌, refl, sym, ap, ◌∙◌, ltb, pos, Bool, true, false, if◌then◌else◌, Option, none, some, Text,
  text_eq, text_eq_refl, is_empty, lookup, lookup-insert, lookup-map_values, arith, Bool-cases, leb,
  inl, inr,
}
use mathlib.Core.Option
use llm_mux_fork.Clock.{Time, add, unix_nano, IsModern, unix_nano_modern, from_unix_nano_modern}
use llm_mux_fork.Failure.Category.{categorize_error}
use llm_mux_fork.Failure.Error.{Error, status_code, message}
use llm_mux_fork.Provider.Types.{Status, Result, BlockReason, free}
use llm_mux_fork.Registry.Entry.{
  ModelStateSnapshot, no_snapshot, clone_snapshot, clone_states, with_state, clone_metadata,
  AuthEntry,
}
use llm_mux_fork.Registry.Ops.{
  is_disabled_status, state_verdict, entry_verdict, model_verdict, is_blocked_for_model,
  decrement_active_requests,
}
use llm_mux_fork.Registry.Results.{
  or_snapshot, update_model_state, fail_state, fail_metadata, note_error, quota_wait,
  handle_failure_result, handle_success_result, mark_entry, succeed_metadata,
}
use llm_mux_fork.Legacy.MarkResult.{counts}

lookup-update_model_state :
    (k m : Text) (f : ModelStateSnapshot → ModelStateSnapshot) (e : AuthEntry)
    → lookup m (update_model_state k f e).model_states ≡ (
        if text_eq k m
        then some (f (or_snapshot (lookup k e.model_states)))
        else Option.map clone_snapshot (lookup m e.model_states))
unfolding update_model_state with_state clone_states
lookup-update_model_state k m f e = rw (lookup-insert, lookup-map_values) refl

-- The test on a state that failed with status 429 and the wait of `n` nanoseconds.
state_verdict-fail_state :
    (off : Bool) (now t : Time) (n : ℕ) (error : Option Error) (s : ModelStateSnapshot)
    → IsModern (add now (pos n))
    → status_code error ≡ 429
    → state_verdict t (fail_state off now (some (pos n)) error s) ≡ (
        if ltb t (add now (pos n))
        then record { blocked = true; reason = BlockReason.cooldown; next = add now (pos n) }
        else free)
unfolding state_verdict fail_state quota_wait note_error is_disabled_status clone_snapshot
state_verdict-fail_state off now t n none s modern h =
    ground (arith, h, modern.late, unix_nano_modern _ modern, from_unix_nano_modern _ modern)
state_verdict-fail_state off now t n (some x) s modern h =
    ground (arith, h, modern.late, unix_nano_modern _ modern, from_unix_nano_modern _ modern)

is_blocked_for_model-state :
    (e : AuthEntry) (model : Text) (t : Time) (s : ModelStateSnapshot)
    → e.disabled ≡ false
    → is_disabled_status e.metadata.status ≡ false
    → is_empty model ≡ false
    → lookup model e.model_states ≡ some s
    → is_blocked_for_model e model t ≡ state_verdict t s
unfolding is_blocked_for_model model_verdict
is_blocked_for_model-state e model t s on active named h = rw (on, active, named, h) refl

fail_metadata_active :
    (now : Time) (error : Option Error) (e : AuthEntry)
    → is_disabled_status (fail_metadata now error e.metadata).status ≡ false
unfolding is_disabled_status fail_metadata clone_metadata
fail_metadata_active now none e = refl
fail_metadata_active now (some x) e = refl

decrement-disabled : (e : AuthEntry) → (decrement_active_requests e).disabled ≡ e.disabled
unfolding decrement_active_requests
decrement-disabled e = ground arith

if_self {ℓ} : {A : Type ℓ} (k : Text) (x y : A) → (if text_eq k k then x else y) ≡ x
if_self k x y = rw (text_eq_refl k) refl

if_apart {ℓ} : {A : Type ℓ} {b : Bool} → b ≡ false → (x y : A) → (if b then x else y) ≡ y
if_apart h x y = rw h refl

-- A failure with status 429 and a wait of `n` nanoseconds, that counts, for a model: until the wait is
-- over the entry is in cooldown for the model, with the end of the wait as the next time; from then
-- on it is free for the model. The entry is not disabled, and the wait ends between 1970 and 2262.
pub mark_entry-is_blocked_for_model :
    (off : Bool) (now t : Time) (n : ℕ) (r : Result) (e : AuthEntry)
    → r.success ≡ false
    → is_empty r.model ≡ false
    → status_code r.error ≡ 429
    → counts (categorize_error 429 (message r.error)) ≡ true
    → r.retry_after ≡ some (pos n)
    → e.disabled ≡ false
    → IsModern (add now (pos n))
    → is_blocked_for_model (mark_entry off now r e).0 r.model t ≡ (
        if ltb t (add now (pos n))
        then record { blocked = true; reason = BlockReason.cooldown; next = add now (pos n) }
        else free)
unfolding mark_entry handle_failure_result
mark_entry-is_blocked_for_model off now t n r e failed named status counted wait on modern =
    rw (failed, named, status, counted, wait)
      (is_blocked_for_model-state _ r.model t _ (decrement-disabled e ∙ on)
          (fail_metadata_active now r.error (decrement_active_requests e)) named
          (lookup-update_model_state r.model r.model (fail_state off now (some (pos n)) r.error)
              (decrement_active_requests e)
            ∙ if_self r.model _ _)
        ∙ state_verdict-fail_state off now t n r.error _ modern status)

state_verdict_active :
    (t now : Time)
    → state_verdict t (record no_snapshot { status = Status.active; updated_at = unix_nano now })
      ≡ free
unfolding state_verdict is_disabled_status
state_verdict_active t now = refl

-- After a success for a model, an entry that is not disabled is free for that model, whatever state
-- the model had.
pub mark_entry_success :
    (off : Bool) (now t : Time) (r : Result) (e : AuthEntry)
    → r.success ≡ true
    → is_empty r.model ≡ false
    → e.disabled ≡ false
    → is_blocked_for_model (mark_entry off now r e).0 r.model t ≡ free
unfolding mark_entry handle_success_result succeed_metadata clone_metadata is_disabled_status
mark_entry_success off now t r e ok named on =
    rw (ok, named)
      (is_blocked_for_model-state _ r.model t _ on refl named (
          lookup-update_model_state r.model r.model
            (λ _. record no_snapshot { status = Status.active; updated_at = unix_nano now }) e
          ∙ if_self r.model _ _)
        ∙ state_verdict_active t now)

model_verdict-clone_snapshot :
    (t : Time) (e f : AuthEntry) (s : Option ModelStateSnapshot)
    → entry_verdict t f ≡ entry_verdict t e
    → model_verdict t f (Option.map clone_snapshot s) ≡ model_verdict t e s
unfolding model_verdict state_verdict clone_snapshot
model_verdict-clone_snapshot t e f none h = h
model_verdict-clone_snapshot t e f (some s) h = refl

entry_verdict-decrement :
    (t : Time) (e : AuthEntry) → entry_verdict t (decrement_active_requests e) ≡ entry_verdict t e
unfolding entry_verdict decrement_active_requests
entry_verdict-decrement t e = ground arith

decrement-model_states :
    (e : AuthEntry) → (decrement_active_requests e).model_states ≡ e.model_states
unfolding decrement_active_requests
decrement-model_states e = ground arith

decrement-status :
    (e : AuthEntry) → (decrement_active_requests e).metadata.status ≡ e.metadata.status
unfolding decrement_active_requests
decrement-status e = ground arith

is_blocked_for_model-frame :
    (e f : AuthEntry) (model : Text) (t : Time)
    → f.disabled ≡ e.disabled
    → is_disabled_status f.metadata.status ≡ is_disabled_status e.metadata.status
    → entry_verdict t f ≡ entry_verdict t e
    → lookup model f.model_states ≡ Option.map clone_snapshot (lookup model e.model_states)
    → is_blocked_for_model f model t ≡ is_blocked_for_model e model t
unfolding is_blocked_for_model
is_blocked_for_model-frame e f model t h1 h2 h3 h4 =
    rw (h1, h2, h3, h4, model_verdict-clone_snapshot t e f (lookup model e.model_states) h3) refl

is_blocked_for_model-decrement :
    (e : AuthEntry) (model : Text) (t : Time)
    → is_blocked_for_model (decrement_active_requests e) model t ≡ is_blocked_for_model e model t
unfolding is_blocked_for_model model_verdict entry_verdict decrement_active_requests
is_blocked_for_model-decrement e model t = elim (Bool-cases (leb e.quota.active_requests 0)) [
  | inl h ↦ rw h refl
  | inr h ↦ rw h refl
]

-- A failure for a model changes nothing for another model, or for a request that names no model: an
-- entry whose status is not `disabled` gives the test the same answer as before.
pub mark_entry_other_model :
    (off : Bool) (now t : Time) (r : Result) (e : AuthEntry) (other : Text)
    → r.success ≡ false
    → is_empty r.model ≡ false
    → text_eq r.model other ≡ false
    → is_disabled_status e.metadata.status ≡ false
    → is_blocked_for_model (mark_entry off now r e).0 other t ≡ is_blocked_for_model e other t
unfolding mark_entry handle_failure_result entry_verdict
mark_entry_other_model off now t r e other failed named apart active =
    rw (failed, named)
      (elim (Bool-cases (counts (categorize_error (status_code r.error) (message r.error)))) [
        | inl counted ↦ rw counted (
            is_blocked_for_model-frame e _ other t (decrement-disabled e)
              (fail_metadata_active now r.error (decrement_active_requests e) ∙ sym active)
              (entry_verdict-decrement t e)
              (lookup-update_model_state r.model other (fail_state off now r.retry_after r.error)
                  (decrement_active_requests e)
                ∙ if_apart apart _ _
                ∙ ap (λ m. Option.map clone_snapshot (lookup other m)) (decrement-model_states e)))
        | inr ignored ↦ rw ignored (is_blocked_for_model-decrement e other t)
      ])
