-- ===== src/Registry.antt =====
-- internal/provider/auth_entry.go and auth_registry.go
pub mod Entry
pub mod Ops
pub mod Results
pub mod Pick
pub mod Register
pub mod Registered
pub mod Calls
pub mod Updated
pub mod Choice
pub mod Wait
pub mod Blocking
pub mod Marks
pub mod Roundtrip
