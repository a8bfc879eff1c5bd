-- ===== src/Lib.antt =====
-- llm-mux: one API in front of many accounts ("credentials") of language-model providers. This
-- library models the part that decides which credential serves a request and what its outcome does
-- to that credential, in internal/provider and internal/resilience, and the registry of the models
-- that the credentials serve, in internal/registry.
--
-- Parts and files
-- - Failure: internal/provider/error_category.go and errors.go. Categories of errors and the tests
--   on them.
-- - Resilience: internal/resilience/retry.go. The backoff functions and RetryBudget; Threads has the
--   loops of TryAcquire and Release as atomic steps of goroutines that interleave.
-- - Provider: internal/provider/types.go and status.go (Types), nextQuotaCooldown (Cooldown) and the
--   waits and the decision to retry (Waits, Chances, Retries) of retry.go, normalizeProviders of
--   provider_selection.go (Names), and provider_stats.go with selectProviders (Stats, Ranking).
-- - Registry: internal/provider/auth_entry.go and auth_registry.go. Entry and Ops have AuthEntry, its
--   conversions, counters and tests; Results has AuthRegistry.MarkResult; Pick has
--   AuthRegistry.Pick; Register has Register, Update, Delete
--   and Load. Choice and Wait are about Pick,
--   Blocking and Marks about MarkResult, Registered, Calls and Updated about Register and its like,
--   Roundtrip about NewAuthEntry and ToAuth.
-- - Quota: internal/provider/quota_manager.go and the strategies. State has AuthQuotaState and
--   OnQuotaHit of each strategy, Manager the operations of QuotaManager on the states.
--   Config has the table of quota_config.go, Select has Pick with its two selections, and cleanup;
--   Open, Chosen and Choice are about Pick, Cleanup about cleanup, Hits about the rest.
-- - Sticky: internal/provider/sticky_store.go. Shard is one shard, Store the 16 of them.
-- - Groups: internal/provider/quota_group.go. Families of models that share a quota.
-- - Legacy: internal/provider/state.go, isAuthBlockedForModel and RoundRobinSelector.Pick
--   (Select) of selector.go and markResultSync of manager.go, the path that runs where there is no
--   registry. Turns and Rounds are about RoundRobinSelector.Pick. Aggregate is about the state of the
--   credential as a whole, Settle and Spread about the models of a group.
-- - Models: internal/registry. Types has ModelInfo, ModelRegistration and registryState; Index the two
--   indices of state.go; Register and Reconcile model_registration.go; Find state.go and
--   model_indexing.go; Suspend model_suspension.go; Query model_query.go; Prefix model_prefix.go.
--   Counts, Batches, Weights, Sums, Untouched, Reconciled, Usage, Clients, Directory, Balance,
--   History and Moved are about RegisterClient and UnregisterClient, Bags about the indices, Finding
--   and Marks about suspension, Shown about prefixes, Supports about ClientSupportsModel.
-- - Tests: concrete inputs.
--
-- How they interact: the manager asks the registry (or the quota manager) for a credential by Pick,
-- runs the request, and reports the outcome by MarkResult. That changes the entry, by the category
-- of the error and by nextQuotaCooldown; Pick reads the entry by IsBlockedForModel and IsInCooldown.
-- The sticky store remembers the credential of a conversation, the groups spread a quota error.
--
-- Conventions. A Go function keeps its name in lower case with underscores. State is passed
-- explicitly; the calls of other components are returned as a list. `time.Now()` is an argument. A
-- time is a number of nanoseconds from Go's zero time; int64 nanoseconds from 1970 keep their
-- wrap-around (Clock). A Go map is a list of pairs in the order of a `range`, which is open;
-- RegisterClient, which builds its maps itself, takes the order of each range as an argument.
-- sort.Slice is an argument, too. An atomic field is a plain field; loops of loads and
-- compare-and-swaps take effect at once, but for RetryBudget, where they are steps. The random
-- source is an argument. A text is the list of its code points; strings.ToLower and
-- strings.TrimSpace act on ASCII alone. A remaining fraction, a float64 in Go, is counted in
-- millionths.
--
-- Fuel. The only loop on fuel is the eviction of the sticky store, with one round more than there
-- are entries; each round removes an entry, so that it ends before.
--
-- Not modelled: the loops that execute requests, the float arithmetic of scores (an argument),
-- RegisterAuth of QuotaManager, the loops that refresh tokens and persist credentials, the JSON
-- values that the registry of models builds and its static lists, the translation between API
-- formats, and all input and output (HTTP, files, databases). Pointers that are nil where the
-- callers never pass nil are left out.
pub mod Prelude
pub mod Clock
pub mod Failure
pub mod Resilience
pub mod Provider
pub mod Registry
pub mod Quota
pub mod Sticky
pub mod Groups
pub mod Legacy
pub mod Models
pub mod Tests
