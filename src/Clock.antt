-- ===== src/Clock.antt =====
-- Go's package `time`, as far as the program uses it. A `Time` is the number of nanoseconds since
-- the zero time `time.Time{}` (1 January of year 1), which is 0 itself; the program makes no earlier
-- time. A `Duration` is a whole number of nanoseconds. `Sub` is exact here (Go's stops at about 292
-- years); the clock is read by passing `now`.
use llm_mux_fork.Prelude.{
  ℕ, zero, suc, ◌+◌, ◌-◌, ◌%◌, ◌^◌, ◌≤◌, ◌<◌, ◌≡◌, refl, ◌==◌, Bool, ltb, if◌then◌else◌, ℤ, pos,
  negsuc, pos_part, neg_part, sub_ℕ, signed, arith,
}

abbrev pub Time : Type 0
Time = ℕ

abbrev pub Duration : Type 0
Duration = ℤ

abbrev pub zero_time : Time
zero_time = 0

abbrev pub is_zero : Time → Bool
is_zero t = t == 0

abbrev pub after : Time → Time → Bool
after t u = ltb u t

abbrev pub before : Time → Time → Bool
before t u = ltb t u

-- A time before the zero time is cut off at it.
abbrev pub add : Time → Duration → Time
add t d = t + pos_part d - neg_part d

abbrev pub sub : Time → Time → Duration
sub t u = sub_ℕ t u

abbrev pub second : ℕ
second = 1_000_000_000

abbrev pub minute : ℕ
minute = 60_000_000_000

abbrev pub hour : ℕ
hour = 3_600_000_000_000

-- 1 January 1970
abbrev pub unix_epoch : Time
unix_epoch = 62_135_596_800_000_000_000

-- `t.UnixNano()`, an int64; it wraps for the zero time and others far from 1970.
unfoldable pub unix_nano : Time → ℤ
unix_nano t = signed ((t + 2 ^ 66 - unix_epoch) % 2 ^ 64)

-- `time.Unix(0, ns)`
unfoldable pub from_unix_nano : ℤ → Time
from_unix_nano ns = unix_epoch + pos_part ns - neg_part ns

-- An int64 field of nanoseconds as a time: the getters' test for 0 (GetCooldownUntil and the like in
-- internal/provider/quota_manager.go and auth_entry.go).
unfoldable pub to_time : ℤ → Time
to_time (pos zero) = zero_time
to_time (pos (suc n)) = from_unix_nano (pos (suc n))
to_time (negsuc n) = from_unix_nano (negsuc n)

-- The setters' test for the zero time (SetCooldownUntil and the like).
unfoldable pub to_ns : Time → ℤ
to_ns t = if is_zero t then pos 0 else unix_nano t

-- Between 1678 and 2262 a time survives the way through its nanoseconds.
pub from_unix_nano-unix_nano :
    (t : Time)
    → unix_epoch ≤ t + 2 ^ 63
    → t + 1 ≤ unix_epoch + 2 ^ 63
    → from_unix_nano (unix_nano t) ≡ t
unfolding from_unix_nano unix_nano
from_unix_nano-unix_nano t h k = ground arith

-- After 1970 and before 2262.
pub record IsModern (t : Time) : Type 0 where
  pub late : unix_epoch < t
  pub early : t + 1 ≤ unix_epoch + 2 ^ 63

pub unix_nano_modern : (t : Time) → IsModern t → unix_nano t ≡ pos (t - unix_epoch)
unfolding unix_nano
unix_nano_modern t m = ground arith

to_ns_modern : (t : Time) → IsModern t → to_ns t ≡ pos (t - unix_epoch)
unfolding to_ns
to_ns_modern t m = ground (arith, unix_nano_modern t m)

to_time_pos : (n : ℕ) → 0 < n → to_time (pos n) ≡ unix_epoch + n
unfolding to_time from_unix_nano
to_time_pos zero h = absurd (omega arith)
to_time_pos (suc n) h = omega arith

pub to_time-to_ns : (t : Time) → IsModern t → to_time (to_ns t) ≡ t
to_time-to_ns t m = rw (to_ns_modern t m) (omega (arith, m.late, to_time_pos (t - unix_epoch)))

pub to_time-to_ns_zero : to_time (to_ns zero_time) ≡ zero_time
unfolding to_time to_ns
to_time-to_ns_zero = refl

pub from_unix_nano_modern : (t : Time) → IsModern t → from_unix_nano (unix_nano t) ≡ t
from_unix_nano_modern t m = from_unix_nano-unix_nano t (omega (arith, m.late)) m.early
