-- ===== src/Provider/Cooldown.antt =====
-- internal/provider/retry.go: nextQuotaCooldown, the wait after repeated quota errors. The switch
-- quotaCooldownDisabled is an argument.
use llm_mux_fork.Prelude.{
  ℕ, zero, suc, ◌+◌, ◌*◌, ◌^◌, ◌<◌, ◌≤◌, ◌≡◌, refl, min, ltb, ◌==◌, if◌then◌else◌, Bool, true,
  false, ◌&&◌, ℤ, pos, negsuc, pos_part, neg_part, ltb_ℤ, leb_ℤ, wrap64, arith, check_below,
  of_check_below, dec_lt,
}
use llm_mux_fork.Clock.{Duration, second, minute}

abbrev pub quota_backoff_base : ℕ
quota_backoff_base = second

abbrev pub quota_backoff_max : ℕ
quota_backoff_max = 30 * minute

-- The two tests on `cooldown`, below the base and from the maximum on.
unfoldable pub clamp : Duration → ℕ → Duration × ℕ
clamp product level =
    let cooldown =
      if ltb_ℤ product (pos quota_backoff_base) then pos quota_backoff_base else product in
    if leb_ℤ (pos quota_backoff_max) cooldown
    then (pos quota_backoff_max, level)
    else (cooldown, level + 1)

-- The stored level is an int; a negative one counts as 0.
unfoldable pub next_quota_cooldown : Bool → ℤ → Duration × ℕ
unfolding clamp
next_quota_cooldown disabled prev_level =
    let level = if ltb_ℤ prev_level (pos 0) then 0 else pos_part prev_level in
    if disabled then (pos 0, level) else clamp (wrap64 (quota_backoff_base * 2 ^ level)) level

abbrev pub InRange : ℕ → Duration × ℕ → Type 0
InRange level r =
    (wait : ℕ) × (r.0 ≡ pos wait)
    × (quota_backoff_base ≤ wait)
    × (wait ≤ quota_backoff_max)
    × (level ≤ r.1)
    × (r.1 ≤ level + 1)

clamp-InRange : (product : Duration) (level : ℕ) → InRange level (clamp product level)
unfolding clamp
clamp-InRange (pos n) level = (
  pos_part (clamp (pos n) level).0,
  ground arith,
  ground arith,
  ground arith,
  ground arith,
  ground arith,
)
clamp-InRange (negsuc n) level = (
  pos_part (clamp (negsuc n) level).0,
  ground arith,
  ground arith,
  ground arith,
  ground arith,
  ground arith,
)

level_of : (prev : ℤ) → (if ltb_ℤ prev (pos 0) then 0 else pos_part prev) ≡ pos_part prev
level_of (pos n) = ground arith
level_of (negsuc n) = ground arith

-- Whatever the stored level, also where the shift overflows, the wait is between one second and
-- half an hour, and the level does not fall below the stored one (a negative one being 0), nor rise
-- by more than one.
pub next_quota_cooldown_bounds :
    (prev : ℤ)
    → (wait : ℕ) × ((next_quota_cooldown false prev).0 ≡ pos wait)
      × (quota_backoff_base ≤ wait)
      × (wait ≤ quota_backoff_max)
      × (pos_part prev ≤ (next_quota_cooldown false prev).1)
      × ((next_quota_cooldown false prev).1 ≤ pos_part prev + 1)
unfolding next_quota_cooldown
next_quota_cooldown_bounds prev =
    rw (level_of prev)
      (clamp-InRange (wrap64 (quota_backoff_base * 2 ^ pos_part prev)) (pos_part prev))

-- The level after n quota errors in a row, from level 0.
unfoldable pub level_after : ℕ → ℕ
level_after zero = 0
level_after (suc n) = (next_quota_cooldown false (pos (level_after n))).1

-- The wait after the (n + 1)-th quota error in a row.
unfoldable pub wait_after : ℕ → Duration
wait_after n = (next_quota_cooldown false (pos (level_after n))).0

-- At the levels below 11, by evaluation.
doubles : ℕ → Bool
unfolding next_quota_cooldown
doubles n =
    let r = next_quota_cooldown false (pos n) in
    (pos_part r.0 == quota_backoff_base * 2 ^ n) && (neg_part r.0 == 0) && (r.1 == n + 1)

doubles_table : check_below 11 doubles ≡ true
unfolding doubles check_below
doubles_table = refl

next_quota_cooldown_low :
    (n : ℕ) → n < 11 → next_quota_cooldown false (pos n) ≡ (pos (quota_backoff_base * 2 ^ n), n + 1)
next_quota_cooldown_low n h = from_parts (of_check_below 11 doubles n doubles_table h)
  where
    from_parts :
        doubles n ≡ true
        → next_quota_cooldown false (pos n) ≡ (pos (quota_backoff_base * 2 ^ n), n + 1)
    from_parts e = unfold doubles in ground arith

next_quota_cooldown_top : next_quota_cooldown false (pos 11) ≡ (pos quota_backoff_max, 11)
unfolding next_quota_cooldown
next_quota_cooldown_top = refl

level_after_lem : (n : ℕ) → level_after n ≡ min n 11
unfolding level_after
level_after_lem zero = refl
level_after_lem (suc n) = elim (dec_lt n 11) [
  | yes h ↦ ground (arith, level_after_lem n, next_quota_cooldown_low n h)
  | no h ↦ ground (arith, level_after_lem n, next_quota_cooldown_top)
]

-- The n-th quota error in a row, counted from 0, makes the credential wait 2 ^ n seconds, and half
-- an hour from n = 11 on.
pub wait_after_lem :
    (n : ℕ)
    → wait_after n ≡ pos (if ltb n 11 then quota_backoff_base * 2 ^ n else quota_backoff_max)
unfolding wait_after
wait_after_lem n = elim (dec_lt n 11) [
  | yes h ↦ ground (arith, level_after_lem n, next_quota_cooldown_low n h)
  | no h ↦ ground (arith, level_after_lem n, next_quota_cooldown_top)
]
