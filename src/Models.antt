-- ===== src/Models.antt =====
-- internal/registry: the registry of models.
pub mod Types
pub mod Index
pub mod Register
pub mod Reconcile
pub mod Find
pub mod Prefix
pub mod Suspend
pub mod Query
pub mod Counts
pub mod Batches
pub mod Weights
pub mod Reconciled
pub mod Usage
pub mod Clients
pub mod Untouched
pub mod Directory
pub mod Sums
pub mod Balance
pub mod History
pub mod Bags
pub mod Finding
pub mod Marks
pub mod Shown
pub mod Supports
pub mod Moved
