-- ===== src/Sticky.antt =====
-- internal/provider/sticky_store.go
pub mod Shard
pub mod Bounds
pub mod Reads
pub mod Store
