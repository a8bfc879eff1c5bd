-- ===== src/Legacy.antt =====
-- internal/provider/selector.go and state.go
pub mod Blocked
pub mod State
pub mod Groups
pub mod Failure
pub mod MarkResult
pub mod Aggregate
pub mod Settle
pub mod Spread
pub mod Select
pub mod Turns
pub mod Rounds
