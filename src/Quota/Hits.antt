-- ===== src/Quota/Hits.antt =====
-- internal/provider/quota_manager.go and the provider strategies: what a quota hit, the end of a
-- request and a fetched quota do to the cooldown of a credential.
use llm_mux_fork.Prelude.{
  ℕ, ◌-◌, ◌≤◌, ◌<◌, ◌≡◌, refl, sym, ap, ◌∙◌, leb, ltb, ltb_ℤ, leb_ℤ, ℤ, pos, negsuc, true, false,
  ◌&&◌, ◌||◌, lt→ltb, if◌then◌else◌, Option, some, Text, Map, lookup, lookup-insert_self, zero, suc,
  arith, Bool-cases, inl, inr,
}
use llm_mux_fork.Clock.{
  Time, add, to_time, to_ns, IsModern, from_unix_nano, unix_nano, unix_nano_modern, unix_epoch,
}
use llm_mux_fork.Quota.State.{
  AuthQuotaState, RealQuotaSnapshot, Strategy, antigravity, claude, copilot, gemini,
  default_strategy, get_strategy, given_cooldown, learn_limit, learn_cooldown, antigravity_until,
  or_default, on_quota_hit, trigger_refresh, handle_quota_snapshot_update, exhausted_until,
  quota_exhausted_threshold, record_usage,
}
use llm_mux_fork.Quota.Manager.{
  get_cooldown_until, or_new, update_state, end_request, record_quota_hit, record_request_end,
  availability_blocked, state_availability, real_availability,
}

to_ns-eq : (t : Time) → IsModern t → to_ns t ≡ pos (t - unix_epoch)
unfolding to_ns
to_ns-eq t m = ground (arith, m.late, unix_nano_modern t m)

given_cooldown_pos : (n : ℕ) → 0 < n → given_cooldown (some (pos n)) ≡ some (pos n)
unfolding given_cooldown
given_cooldown_pos n h = ground (arith, h)

leb_ℤ_refl : (z : ℤ) → leb_ℤ z z ≡ true
leb_ℤ_refl z = ground arith

learn_limit-cooldown_until :
    (s : AuthQuotaState) → (learn_limit s).cooldown_until ≡ s.cooldown_until
unfolding learn_limit
learn_limit-cooldown_until s = ground arith

-- A guarded raise reaches at least the new value.
leb_ℤ_raise : (u c : ℤ) → leb_ℤ u (if leb_ℤ u c then c else u) ≡ true
leb_ℤ_raise u c = elim (Bool-cases (leb_ℤ u c)) [
  | inl h ↦ rw (h, h) refl
  | inr h ↦ rw h (leb_ℤ_refl u)
]

to_ns-unix_nano : (t : Time) → IsModern t → to_ns t ≡ unix_nano t
to_ns-unix_nano t m = to_ns-eq t m ∙ sym (unix_nano_modern t m)

-- The cooldown after a hit that gives a wait of `n` nanoseconds lasts at least as long.
hit-cooldown :
    (strategy : Strategy) (now : Time) (n : ℕ) (s : AuthQuotaState)
    → 0 < n
    → IsModern (add now (pos n))
    → leb_ℤ (to_ns (add now (pos n))) (on_quota_hit strategy now (some (pos n)) s).cooldown_until
      ≡ true
unfolding on_quota_hit learn_cooldown antigravity_until or_default
hit-cooldown antigravity now n s h m =
    rw (given_cooldown_pos n h, to_ns-unix_nano _ m) (leb_ℤ_raise (unix_nano (add now (pos n))) _)
hit-cooldown claude now n s h m = rw (given_cooldown_pos n h) (leb_ℤ_refl (to_ns (add now (pos n))))
hit-cooldown copilot now n s h m =
    rw (given_cooldown_pos n h) (leb_ℤ_refl (to_ns (add now (pos n))))
hit-cooldown gemini now n s h m = rw (given_cooldown_pos n h) (leb_ℤ_refl (to_ns (add now (pos n))))
hit-cooldown default_strategy now n s h m =
    rw (given_cooldown_pos n h) (leb_ℤ_refl (to_ns (add now (pos n))))

to_time_mono : (t : Time) (c : ℤ) → IsModern t → leb_ℤ (to_ns t) c ≡ true → t ≤ to_time c
unfolding to_time from_unix_nano
to_time_mono t (pos zero) m h = ground (arith, m.late, to_ns-eq t m, h)
to_time_mono t (pos (suc n)) m h = ground (arith, m.late, to_ns-eq t m, h)
to_time_mono t (negsuc n) m h = ground (arith, m.late, to_ns-eq t m, h)

trigger_refresh-cooldown_until :
    (s : AuthQuotaState) → (trigger_refresh s).cooldown_until ≡ s.cooldown_until
unfolding trigger_refresh
trigger_refresh-cooldown_until s = ground arith

triggered-cooldown :
    (t now : Time) (n : ℕ) (strategy : Strategy) (s : AuthQuotaState)
    → 0 < n
    → IsModern (add now (pos n))
    → t < add now (pos n)
    → t < get_cooldown_until (trigger_refresh (on_quota_hit strategy now (some (pos n)) s))
unfolding get_cooldown_until
triggered-cooldown t now n strategy s h m early =
    rw (trigger_refresh-cooldown_until (on_quota_hit strategy now (some (pos n)) s))
      (omega (arith, early, to_time_mono _ _ m (hit-cooldown strategy now n s h m)))

state_availability-cooldown :
    (t clock : Time) (s : AuthQuotaState)
    → t < get_cooldown_until s
    → state_availability t clock (some s) ≡ availability_blocked
unfolding state_availability
state_availability-cooldown t clock s h = rw (lt→ltb _ _ h) refl

-- After a quota hit that gives a wait of `n` nanoseconds, and until the wait is over, the credential
-- is blocked for every provider's strategy, whatever its state was and whatever quota was fetched.
-- The wait is not 0 and ends between 1970 and 2262.
pub record_quota_hit-state_availability :
    (now t clock : Time) (id provider : Text) (n : ℕ) (states : Map AuthQuotaState)
    → 0 < n
    → IsModern (add now (pos n))
    → t < add now (pos n)
    → state_availability t clock
        (lookup id (record_quota_hit now id provider (some (pos n)) states))
      ≡ availability_blocked
unfolding record_quota_hit update_state
record_quota_hit-state_availability now t clock id provider n states h m early =
    rw (lookup-insert_self) (
      state_availability-cooldown t clock _
        (triggered-cooldown t now n (get_strategy provider) _ h m early))

record_usage_lem :
    (strategy : Strategy) (tokens : ℤ) (s : AuthQuotaState)
    → ((record_usage strategy tokens s).active_requests ≡ s.active_requests)
      × ((record_usage strategy tokens s).cooldown_until ≡ s.cooldown_until)
      × ((record_usage strategy tokens s).real_quota ≡ s.real_quota)
unfolding record_usage
record_usage_lem copilot tokens s = (refl, refl, refl)
record_usage_lem gemini tokens s = (refl, refl, refl)
record_usage_lem antigravity (pos n) s = (refl, refl, refl)
record_usage_lem antigravity (negsuc n) s = (refl, refl, refl)
record_usage_lem claude (pos n) s = (refl, refl, refl)
record_usage_lem claude (negsuc n) s = (refl, refl, refl)
record_usage_lem default_strategy (pos n) s = (refl, refl, refl)
record_usage_lem default_strategy (negsuc n) s = (refl, refl, refl)

end_request_lem :
    (strategy : Strategy) (tokens : ℤ) (s : AuthQuotaState)
    → ((end_request strategy tokens false s).active_requests ≡ s.active_requests - 1)
      × ((end_request strategy tokens false s).cooldown_until ≡ pos 0)
      × ((end_request strategy tokens false s).real_quota ≡ s.real_quota)
unfolding end_request
end_request_lem strategy tokens s = elim (Bool-cases (ltb_ℤ (pos 0) tokens)) [
  | inl h ↦ rw h (record_usage_lem strategy tokens _)
  | inr h ↦ rw h (refl, refl, refl)
]

before_zero : (now : Time) → ltb now (to_time (pos 0)) ≡ false
unfolding to_time
before_zero now = ground arith

state_availability_warm :
    (now clock : Time) (s : AuthQuotaState) (q : Option RealQuotaSnapshot)
    → s.cooldown_until ≡ pos 0
    → s.real_quota ≡ q
    → state_availability now clock (some s) ≡ real_availability clock q
unfolding state_availability get_cooldown_until
state_availability_warm now clock s q h k = rw (h, k, before_zero now) refl

-- The end of a request that succeeded leaves no cooldown, so that the credential is blocked only by
-- the quota that was fetched, and one request less in flight, down to 0.
pub lookup-record_request_end :
    (id provider : Text) (tokens : ℤ) (states : Map AuthQuotaState) (s : AuthQuotaState)
    → lookup id states ≡ some s
    → (now clock : Time)
    → (after : AuthQuotaState) × (lookup id (record_request_end id provider tokens false states)
        ≡ some after)
      × (after.active_requests ≡ s.active_requests - 1)
      × (state_availability now clock (some after) ≡ real_availability clock s.real_quota)
unfolding record_request_end update_state or_new
lookup-record_request_end id provider tokens states s h now clock =
    (let (fewer, warm, same) = end_request_lem (get_strategy provider) tokens s in
      (
        end_request (get_strategy provider) tokens false s,
        rw (lookup-insert_self, h) refl,
        fewer,
        state_availability_warm now clock _ _ warm same,
      ))

cooldown_of_modern : (z : ℤ) → IsModern (to_time z) → z ≡ pos (to_time z - unix_epoch)
unfolding to_time from_unix_nano
cooldown_of_modern (pos zero) m = absurd (omega (arith, m.late))
cooldown_of_modern (pos (suc n)) m = ap pos (omega arith)
cooldown_of_modern (negsuc n) m = absurd (omega (arith, m.late))

modern_cooldown :
    (s : AuthQuotaState)
    → IsModern (get_cooldown_until s)
    → s.cooldown_until ≡ pos (get_cooldown_until s - unix_epoch)
unfolding get_cooldown_until
modern_cooldown s = cooldown_of_modern s.cooldown_until

exhausted_until-after : (now : Time) (real : RealQuotaSnapshot) → now < exhausted_until now real
unfolding exhausted_until
exhausted_until-after now real = ground arith

ltb_ℤ_pos : (a b : ℕ) → a < b → ltb_ℤ (pos a) (pos b) ≡ true
ltb_ℤ_pos a b h = ground (arith, h)

leb_used : (f : ℕ) → f ≤ quota_exhausted_threshold → leb f quota_exhausted_threshold ≡ true
leb_used f h = ground (arith, h)

kept_cooldown :
    (c u : ℕ)
    → 0 < c
    → c < u
    → ((ltb_ℤ (pos c) (pos 0) || ltb_ℤ (pos 0) (pos c)) && ltb_ℤ (pos c) (pos u)) ≡ true
kept_cooldown c u h k = ground (arith, h, k)

-- A fetched quota that is used up does not renew a cooldown that is over: an expired time in the field
-- stays, and the credential is not in cooldown after it.
pub handle_quota_snapshot_update_expired :
    (now : Time) (real : RealQuotaSnapshot) (s : AuthQuotaState)
    → real.remaining_fraction ≤ quota_exhausted_threshold
    → IsModern (exhausted_until now real)
    → IsModern (get_cooldown_until s)
    → get_cooldown_until s ≤ now
    → (handle_quota_snapshot_update now real s) ≡ s
unfolding handle_quota_snapshot_update
handle_quota_snapshot_update_expired now real s used k c over =
    rw
      (
        leb_used _ used,
        modern_cooldown s c,
        unix_nano_modern _ k,
        kept_cooldown (get_cooldown_until s - unix_epoch) (exhausted_until now real - unix_epoch)
            (omega (arith, c.late)) (omega (arith, c.late, over, exhausted_until-after now real)),
      )
      refl
