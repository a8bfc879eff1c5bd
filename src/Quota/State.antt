-- ===== src/Quota/State.antt =====
-- internal/provider/quota_manager.go: AuthQuotaState, the counters of a credential, and what the
-- strategies (provider_strategy.go, strategy_antigravity.go, strategy_claude.go,
-- strategy_copilot.go, strategy_gemini.go) do to them. Each atomic field is a plain field; the loops
-- of loads and compare-and-swaps take effect at their last one. A remaining fraction, a float64 in
-- the source, is counted in millionths.
use llm_mux_fork.Prelude.{
  ℕ, ◌+◌, ◌*◌, leb, ltb_ℤ, leb_ℤ, ℤ, pos, negsuc, Bool, true, false, not, ◌&&◌, ◌||◌, if◌then◌else◌,
  Option, none, some, Text, txt, text_eq,
}
use llm_mux_fork.Clock.{Time, Duration, is_zero, after, add, to_ns, unix_nano, minute, hour}

pub record RealQuotaSnapshot : Type 0 where
  pub remaining_fraction : ℕ
  pub remaining_tokens : ℤ
  pub window_reset_at : Time
  pub fetched_at : Time

pub record AuthQuotaState : Type 0 where
  pub active_requests : ℕ
  pub cooldown_until : ℤ
  pub total_tokens_used : ℕ
  pub last_exhausted_at : ℤ
  pub learned_limit : ℕ
  pub learned_cooldown : ℤ
  pub real_quota : Option RealQuotaSnapshot
  -- the channel of one slot, once it is made: whether the slot is taken
  pub refresh_trigger : Option Bool

abbrev pub no_state : AuthQuotaState
no_state = record {
  active_requests = 0;
  cooldown_until = pos 0;
  total_tokens_used = 0;
  last_exhausted_at = pos 0;
  learned_limit = 0;
  learned_cooldown = pos 0;
  real_quota = none;
  refresh_trigger = none;
}

unfoldable pub trigger_refresh : AuthQuotaState → AuthQuotaState
trigger_refresh s = elim s.refresh_trigger [
  | none ↦ s
  | some taken ↦ record s { refresh_trigger = some true }
]

unfoldable pub get_refresh_trigger : AuthQuotaState → AuthQuotaState
get_refresh_trigger s = elim s.refresh_trigger [
  | none ↦ record s { refresh_trigger = some false }
  | some taken ↦ s
]

pub data Strategy : Type 0 where
  antigravity claude copilot gemini default_strategy : Strategy

-- `getStrategy`, over the map that NewQuotaManager fills.
unfoldable pub get_strategy : Text → Strategy
get_strategy provider =
    if text_eq provider (txt "antigravity")
    then antigravity
    else if text_eq provider (txt "claude")
    then claude
    else if text_eq provider (txt "copilot")
    then copilot
    else if text_eq provider (txt "gemini")
    then gemini
    else default_strategy

-- `cooldown != nil && *cooldown > 0`
unfoldable pub given_cooldown : Option Duration → Option Duration
given_cooldown none = none
given_cooldown (some d) = if ltb_ℤ (pos 0) d then some d else none

-- The first lines of each OnQuotaHit but those of copilot and gemini: the limit that was reached.
unfoldable pub learn_limit : AuthQuotaState → AuthQuotaState
learn_limit s =
    if leb s.total_tokens_used s.learned_limit
    then s
    else record s { learned_limit = s.total_tokens_used }

-- DefaultStrategy and ClaudeStrategy
unfoldable pub learn_cooldown : Time → Option Duration → AuthQuotaState → AuthQuotaState
unfolding to_ns
learn_cooldown now (some d) s = record s {
  cooldown_until = to_ns (add now d);
  learned_cooldown = d;
}
learn_cooldown now none s =
    if ltb_ℤ (pos 0) s.learned_cooldown
    then record s { cooldown_until = to_ns (add now s.learned_cooldown) }
    else record s { cooldown_until = to_ns (add now (pos (5 * hour))) }

-- The cooldown of AntigravityStrategy: what the caller says, the reset of the window that was
-- fetched, or five hours.
unfoldable pub window_reset : Time → Option RealQuotaSnapshot → Time
window_reset now none = add now (pos (5 * hour))
window_reset now (some real) =
    if not (is_zero real.window_reset_at) && after real.window_reset_at now
    then real.window_reset_at
    else add now (pos (5 * hour))

unfoldable pub antigravity_until : Time → Option Duration → AuthQuotaState → Time
unfolding window_reset
antigravity_until now (some d) s = add now d
antigravity_until now none s = window_reset now s.real_quota

unfoldable pub or_default : Duration → Option Duration → Duration
or_default d none = d
or_default d (some c) = c

unfoldable pub antigravity_hit : Time → Option Duration → AuthQuotaState → AuthQuotaState
unfolding given_cooldown learn_limit antigravity_until to_ns
antigravity_hit now cooldown s =
    let s1 = learn_limit (record s { last_exhausted_at = to_ns now }) in
    let until = unix_nano (antigravity_until now (given_cooldown cooldown) s1) in
    record s1 {
      cooldown_until = if leb_ℤ until s1.cooldown_until then s1.cooldown_until else until;
      total_tokens_used = 0;
    }

unfoldable pub copilot_hit : Time → Option Duration → AuthQuotaState → AuthQuotaState
unfolding given_cooldown or_default to_ns
copilot_hit now cooldown s = record s {
  last_exhausted_at = to_ns now;
  cooldown_until = to_ns (add now (or_default (pos hour) (given_cooldown cooldown)));
}

unfoldable pub gemini_hit : Time → Option Duration → AuthQuotaState → AuthQuotaState
unfolding given_cooldown or_default to_ns
gemini_hit now cooldown s = record s {
  last_exhausted_at = to_ns now;
  cooldown_until = to_ns (add now (or_default (pos minute) (given_cooldown cooldown)));
}

unfoldable pub claude_hit : Time → Option Duration → AuthQuotaState → AuthQuotaState
unfolding given_cooldown learn_limit learn_cooldown to_ns
claude_hit now cooldown s =
    record (learn_cooldown now (given_cooldown cooldown)
      (learn_limit (record s { last_exhausted_at = to_ns now }))) { total_tokens_used = 0 }

unfoldable pub default_hit : Time → Option Duration → AuthQuotaState → AuthQuotaState
unfolding given_cooldown learn_limit learn_cooldown to_ns
default_hit now cooldown s =
    record (learn_cooldown now (given_cooldown cooldown)
      (learn_limit (record s { last_exhausted_at = to_ns now }))) { total_tokens_used = 0 }

-- OnQuotaHit of the strategy.
unfoldable pub on_quota_hit : Strategy → Time → Option Duration → AuthQuotaState → AuthQuotaState
unfolding antigravity_hit claude_hit copilot_hit gemini_hit default_hit
on_quota_hit antigravity = antigravity_hit
on_quota_hit claude = claude_hit
on_quota_hit copilot = copilot_hit
on_quota_hit gemini = gemini_hit
on_quota_hit default_strategy = default_hit

-- `RecordUsage`: copilot and gemini count requests elsewhere.
unfoldable pub record_usage : Strategy → ℤ → AuthQuotaState → AuthQuotaState
record_usage copilot tokens s = s
record_usage gemini tokens s = s
record_usage _ (pos tokens) s = record s { total_tokens_used = s.total_tokens_used + tokens }
record_usage _ (negsuc tokens) s = s

abbrev pub quota_exhausted_threshold : ℕ
quota_exhausted_threshold = 20_000

abbrev pub quota_recovered_threshold : ℕ
quota_recovered_threshold = 50_000

-- `handleQuotaSnapshotUpdate`
unfoldable pub exhausted_until : Time → RealQuotaSnapshot → Time
exhausted_until now real =
    if not (is_zero real.window_reset_at) && after real.window_reset_at now
    then real.window_reset_at
    else add now (pos (5 * hour))

unfoldable pub handle_quota_snapshot_update :
    Time → RealQuotaSnapshot → AuthQuotaState → AuthQuotaState
unfolding exhausted_until to_ns
handle_quota_snapshot_update now real s =
    let until = unix_nano (exhausted_until now real) in
    let is_set = ltb_ℤ s.cooldown_until (pos 0) || ltb_ℤ (pos 0) s.cooldown_until in
    if leb real.remaining_fraction quota_exhausted_threshold
    then (if is_set && ltb_ℤ s.cooldown_until until
        then s
        else record s { cooldown_until = until; last_exhausted_at = to_ns now })
    else if is_set
    then record s { cooldown_until = pos 0; total_tokens_used = 0 }
    else s
