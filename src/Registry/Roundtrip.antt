-- ===== src/Registry/Roundtrip.antt =====
-- internal/provider/auth_entry.go: a credential made into an entry and back.
use llm_mux_fork.Prelude.{
  ◌≡◌, refl, ◌⊎◌, inl, inr, pos, true, Option, none, some, [], ◌∷◌, Map, map_values, All, arith,
  if◌then◌else◌,
}
use llm_mux_fork.Clock.{
  Time, zero_time, is_zero, IsModern, to_time, to_ns, to_time-to_ns, to_time-to_ns_zero,
  from_unix_nano, from_unix_nano_modern, unix_epoch,
}
use llm_mux_fork.Failure.Error.{Error, clone_error}
use llm_mux_fork.Provider.Types.{Auth, ModelState, QuotaState, no_quota}
use llm_mux_fork.Registry.Entry.{to_model_state, snapshot_of}
use llm_mux_fork.Registry.Ops.{new_auth_entry, to_auth, metadata_of, initial_cooldown}

-- No time, or one after 1970 and before 2262.
abbrev pub IsStored : Time → Type 0
IsStored t = (t ≡ zero_time) ⊎ IsModern t

to_time-to_ns_stored : (t : Time) → IsStored t → to_time (to_ns t) ≡ t
to_time-to_ns_stored t (inl h) = rw h to_time-to_ns_zero
to_time-to_ns_stored t (inr h) = to_time-to_ns t h

from_unix_nano_zero : from_unix_nano (pos 0) ≡ unix_epoch
unfolding from_unix_nano
from_unix_nano_zero = refl

from_unix_nano-to_ns :
    (t : Time) → IsStored t → from_unix_nano (to_ns t) ≡ (if is_zero t then unix_epoch else t)
unfolding to_ns
from_unix_nano-to_ns t (inl h) = rw h from_unix_nano_zero
from_unix_nano-to_ns t (inr h) = ground (arith, h.late, from_unix_nano_modern t h)

clone_error_idem : (e : Option Error) → clone_error (clone_error e) ≡ clone_error e
unfolding clone_error
clone_error_idem none = refl
clone_error_idem (some e) = refl

-- The times of a model's state can be stored.
pub record IsStoredState (s : ModelState) : Type 0 where
  pub next_retry_after : IsStored s.next_retry_after
  pub next_recover_at : IsStored s.quota.next_recover_at
  pub updated_at : IsStored s.updated_at

-- A state as it comes back: the error without its category, and 1970 where it was never updated.
abbrev pub returned_state : ModelState → ModelState
returned_state s = record s {
  last_error = clone_error s.last_error;
  updated_at = if is_zero s.updated_at then unix_epoch else s.updated_at;
}

-- The state of a model with times that can be stored comes back as it was, but for the category of its
-- last error, which is lost, and a missing time of update, which becomes 1970.
pub to_model_state-snapshot_of :
    (s : ModelState) → IsStoredState s → to_model_state (snapshot_of s) ≡ returned_state s
unfolding to_model_state snapshot_of
to_model_state-snapshot_of s h =
    rw
      (
        to_time-to_ns_stored _ h.next_retry_after,
        to_time-to_ns_stored _ h.next_recover_at,
        from_unix_nano-to_ns _ h.updated_at,
        clone_error_idem s.last_error,
      )
      refl

returned_states :
    (m : Map ModelState)
    → All (λ (k, s). IsStoredState s) m
    → map_values to_model_state (map_values snapshot_of m) ≡ map_values returned_state m
unfolding map_values
returned_states [] h = refl
returned_states ((k, s) ∷ m) (h, hs) =
    rw (to_model_state-snapshot_of s h, returned_states m hs) refl

-- The quota that comes back: an end of the cooldown, the retry time before the recovery time.
abbrev pub returned_quota : Auth → QuotaState
returned_quota a =
    let recover =
      if is_zero a.next_retry_after then a.quota.next_recover_at else a.next_retry_after in
    if is_zero recover
    then no_quota
    else record no_quota { exceeded = true; next_recover_at = recover }

to_time-initial_cooldown :
    (a : Auth)
    → IsStored a.next_retry_after
    → IsStored a.quota.next_recover_at
    → to_time (initial_cooldown a)
      ≡ (if is_zero a.next_retry_after then a.quota.next_recover_at else a.next_retry_after)
unfolding initial_cooldown
to_time-initial_cooldown a h k =
    ground (arith, to_time-to_ns_stored _ h, to_time-to_ns_stored _ k, to_time-to_ns_zero)

-- A credential whose times can be stored, made into an entry and back, is the same credential but for
-- five fields: the priority becomes 0, the index counts as assigned, the error loses its category,
-- the states of the models are as `to_model_state-snapshot_of` says, and of the quota only the end
-- of the cooldown is kept.
pub to_auth-new_auth_entry :
    (now : Time) (expires : Option Time) (a : Auth)
    → IsStored a.next_retry_after
    → IsStored a.quota.next_recover_at
    → All (λ (k, s). IsStoredState s) a.model_states
    → to_auth (new_auth_entry now expires a) ≡ record a {
      priority = pos 0;
      quota = returned_quota a;
      last_error = clone_error a.last_error;
      model_states = map_values returned_state a.model_states;
      index_assigned = true;
    }
unfolding to_auth new_auth_entry metadata_of
to_auth-new_auth_entry now expires a h k hs =
    rw
      (
        to_time-initial_cooldown a h k,
        returned_states a.model_states hs,
        clone_error_idem a.last_error,
      )
      refl
