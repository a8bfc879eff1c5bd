-- ===== src/Provider/Stats.antt =====
-- internal/provider/provider_stats.go and selectProviders of provider_selection.go. The 32 shards are
-- one map: a key decides its shard, and each operation is on one key, or on every one. Counts and
-- summed latencies stay below 2 ^ 63. A score, a float64 from 0 on, is the number that its bits are,
-- which orders such values as they are ordered; `weighted` is the sum that GetScore computes from the
-- successes, the total and the time since the last success, where that is below five minutes.
use mathlib.Core.List.{reverse}
use llm_mux_fork.Prelude.{
  ℕ, ◌+◌, ◌-◌, ◌*◌, ◌/◌, ltb, leb, ◌==◌, ltb_ℤ, ℤ, pos, Bool, true, not, ◌&&◌, ◌||◌, if◌then◌else◌,
  Option, none, some, Text, txt, List, [], ◌∷◌, ◌++◌, length, Map, lookup, insert, keep,
}
use llm_mux_fork.Clock.{Time, Duration, sub, unix_nano, from_unix_nano, minute}

pub record ProviderMetrics : Type 0 where
  pub success_count : ℕ
  pub failure_count : ℕ
  pub total_latency_ns : ℕ
  pub last_used : ℤ
  pub last_success : ℤ

abbrev pub no_metrics : ProviderMetrics
no_metrics = record {
  success_count = 0;
  failure_count = 0;
  total_latency_ns = 0;
  last_used = pos 0;
  last_success = pos 0;
}

abbrev pub ProviderStats : Type 0
ProviderStats = Map ProviderMetrics

abbrev pub stats_key : Text → Text → Text
stats_key provider model = provider ++ (txt ":" ++ model)

unfoldable pub or_no_metrics : Option ProviderMetrics → ProviderMetrics
or_no_metrics none = no_metrics
or_no_metrics (some m) = m

-- getOrCreate, and what is done to the metrics.
unfoldable pub update_metrics :
    (ProviderMetrics → ProviderMetrics) → Text → ProviderStats → ProviderStats
unfolding or_no_metrics
update_metrics f key stats = insert key (f (or_no_metrics (lookup key stats))) stats

unfoldable pub record_success : Time → Text → Text → ℕ → ProviderStats → ProviderStats
unfolding update_metrics unix_nano
record_success now provider model latency =
    update_metrics
      (λ m. record m {
        success_count = m.success_count + 1;
        total_latency_ns = m.total_latency_ns + latency;
        last_used = unix_nano now;
        last_success = unix_nano now;
      })
      (stats_key provider model)

unfoldable pub record_failure : Time → Text → Text → ProviderStats → ProviderStats
unfolding update_metrics unix_nano
record_failure now provider model =
    update_metrics
      (λ m. record m { failure_count = m.failure_count + 1; last_used = unix_nano now })
      (stats_key provider model)

-- The bits of 0.5.
abbrev pub default_score : ℕ
default_score = 0x3FE0000000000000

-- The time since the last success, where there is one and it is not five minutes ago.
unfoldable pub recent_success : Time → ProviderMetrics → Option Duration
unfolding from_unix_nano
recent_success now m =
    let elapsed = sub now (from_unix_nano m.last_success) in
    if ltb_ℤ (pos 0) m.last_success && ltb_ℤ elapsed (pos (5 * minute)) then some elapsed else none

module _ (weighted : ℕ → ℕ → Option Duration → ℕ) where
  unfoldable pub metrics_score : Time → Option ProviderMetrics → ℕ
  unfolding recent_success
  metrics_score now none = default_score
  metrics_score now (some m) =
      let total = m.success_count + m.failure_count in
      if total == 0 then default_score else weighted m.success_count total (recent_success now m)

  unfoldable pub get_score : Time → Text → Text → ProviderStats → ℕ
  unfolding metrics_score
  get_score now provider model stats = metrics_score now (lookup (stats_key provider model) stats)

unfoldable pub average_latency : Option ProviderMetrics → ℕ
average_latency none = 0
average_latency (some m) = if m.success_count == 0 then 0 else m.total_latency_ns / m.success_count

unfoldable pub get_avg_latency : Text → Text → ProviderStats → ℕ
unfolding average_latency
get_avg_latency provider model stats = average_latency (lookup (stats_key provider model) stats)

-- Cleanup: the metrics that stay, and how many were removed.
unfoldable pub cleanup_stats : Time → ℕ → ProviderStats → ProviderStats × ℕ
unfolding unix_nano
cleanup_stats now max_age [] = ([], 0)
cleanup_stats now max_age ((key, m) ∷ stats) =
    let rest = cleanup_stats now max_age stats in
    let cutoff = unix_nano (now - max_age) in
    if ltb_ℤ m.last_used cutoff then (rest.0, rest.1 + 1) else ((key, m) ∷ rest.0, rest.1)

-- The inner loop of SortByScore: an item moves left past those of a lower score. The sorted items are
-- listed from the right.
unfoldable pub sink : (Text → ℕ) → Text → List Text → List Text
sink score p [] = p ∷ []
sink score p (q ∷ qs) =
    let moved = sink score p qs in if ltb (score q) (score p) then q ∷ moved else p ∷ q ∷ qs

unfoldable pub sink_all : (Text → ℕ) → List Text → List Text → List Text
unfolding sink
sink_all score sorted [] = sorted
sink_all score sorted (p ∷ ps) = sink_all score (sink score p sorted) ps

unfoldable pub all_default : (Text → ℕ) → List Text → Bool
all_default score [] = true
all_default score (p ∷ ps) = score p == default_score && all_default score ps

unfoldable pub sort_by_score : (Text → ℕ) → List Text → List Text
unfolding sink_all all_default
sort_by_score score providers =
    if leb (length providers) 1 || all_default score providers
    then providers
    else reverse (sink_all score [] providers)

-- `is_open` is what the state of a provider's circuit breaker says.
unfoldable pub select_from : (Text → ℕ) → List Text → List Text → List Text
unfolding sort_by_score
select_from score providers [] = providers
select_from score providers (p ∷ ps) = sort_by_score score (p ∷ ps)

unfoldable pub select_providers : (Text → Bool) → (Text → ℕ) → List Text → List Text
unfolding select_from
select_providers is_open score providers =
    if leb (length providers) 1
    then providers
    else select_from score providers (keep (λ p. not (is_open p)) providers)
