-- ===== src/Provider.antt =====
-- internal/provider
pub mod Cooldown
pub mod Types
pub mod Names
pub mod Waits
pub mod Chances
pub mod Retries
pub mod Stats
pub mod Ranking
