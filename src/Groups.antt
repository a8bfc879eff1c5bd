-- ===== src/Groups.antt =====
-- internal/provider/quota_group.go
pub mod Family
pub mod Resolve
pub mod Index
