-- ===== src/Registry/Pick.antt =====
-- internal/provider/auth_registry.go: Pick, the choice of the least busy credential that is free. A
-- candidate is an entry; the one that is picked is returned with its count of requests raised.
use llm_mux_fork.Prelude.{
  ltb, pos, negsuc, Bool, true, false, not, ◌&&◌, ◌||◌, if◌then◌else◌, List, [], ◌∷◌, Text, txt,
}
use llm_mux_fork.Clock.{Time, Duration, zero_time, is_zero, before, sub, to_time}
use llm_mux_fork.Provider.Types.{BlockReason, Verdict}
use llm_mux_fork.Registry.Entry.{AuthEntry}
use llm_mux_fork.Registry.Ops.{is_blocked_for_model, is_in_cooldown, increment_active_requests}

-- What Pick returns: an entry, a wait (modelCooldownError), or an error with a code.
pub data Picked : Type 0 where
  picked : AuthEntry → Picked
  cooling_down : Text → Text → Duration → Picked
  refused : Text → Picked

-- `earliest.IsZero() || t.Before(earliest)`
unfoldable pub earlier : Time → Time → Time
earlier earliest t = if is_zero earliest || before t earliest then t else earliest

unfoldable pub is_timed : BlockReason → Bool
is_timed BlockReason.cooldown = true
is_timed BlockReason.other = true
is_timed _ = false

-- What one candidate does to the free ones (kept in reverse) and to the earliest time.
pub data Class : Type 0 where
  skipped available : Class
  waiting : Time → Class

unfoldable pub blocked_class : Verdict → Class
unfolding is_timed
blocked_class v =
    if not v.blocked
    then available
    else if is_timed v.reason && not (is_zero v.next)
    then waiting v.next
    else skipped

unfoldable pub classify : Text → Time → AuthEntry → Class
unfolding blocked_class
classify model now e =
    if e.disabled
    then skipped
    else if is_in_cooldown now e
    then waiting (to_time e.quota.cooldown_until)
    else blocked_class (is_blocked_for_model e model now)

unfoldable pub add_free : Class → AuthEntry → List AuthEntry → List AuthEntry
add_free available e es = e ∷ es
add_free _ e es = es

unfoldable pub add_time : Class → Time → Time
unfolding earlier
add_time (waiting t) earliest = earlier earliest t
add_time _ earliest = earliest

unfoldable pub free_entries : Text → Time → List AuthEntry → List AuthEntry
free_entries model now [] = []
free_entries model now (e ∷ es) = add_free (classify model now e) e (free_entries model now es)

unfoldable pub earliest_time : Text → Time → Time → List AuthEntry → Time
earliest_time model now earliest [] = earliest
earliest_time model now earliest (e ∷ es) =
    earliest_time model now (add_time (classify model now e) earliest) es

-- The loop for the least busy entry: the first with the fewest requests, from the first one on.
-- Go starts from the greatest int64, which no count of requests reaches.
unfoldable pub least_busy : AuthEntry → List AuthEntry → AuthEntry
least_busy best [] = best
least_busy best (e ∷ es) =
    least_busy (if ltb e.quota.active_requests best.quota.active_requests then e else best) es

-- newModelCooldownError: a negative wait counts as none.
unfoldable pub reset_in : Time → Time → Duration
reset_in earliest now = elim (sub earliest now) [ pos n ↦ pos n | negsuc n ↦ pos 0 ]

unfoldable pub choose : List AuthEntry → Text → Text → Time → Time → Picked
unfolding least_busy reset_in
choose [] model provider earliest now =
    if not (is_zero earliest)
    then cooling_down model provider (reset_in earliest now)
    else refused (txt "auth_unavailable")
choose (e ∷ es) model provider earliest now = picked (increment_active_requests (least_busy e es))

unfoldable pub pick : Text → Text → Time → List AuthEntry → Picked
unfolding choose
pick provider model now [] = refused (txt "auth_not_found")
pick provider model now (e ∷ es) =
    choose (free_entries model now (e ∷ es)) model provider
      (earliest_time model now zero_time (e ∷ es)) now
