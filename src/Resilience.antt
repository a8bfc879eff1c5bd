-- ===== src/Resilience.antt =====
-- internal/resilience: backoff and the retry budget.
pub mod Backoff
pub mod Budget
pub mod Threads
