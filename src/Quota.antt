-- ===== src/Quota.antt =====
-- internal/provider/quota_manager.go and the provider strategies
pub mod State
pub mod Manager
pub mod Hits
pub mod Config
pub mod Select
pub mod Open
pub mod Chosen
pub mod Choice
pub mod Cleanup
