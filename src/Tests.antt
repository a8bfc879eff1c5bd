-- ===== src/Tests.antt =====
-- Concrete inputs at which the conditions of the theorems hold.
mod Samples
mod Provider
mod Registry
mod Quota
mod Sticky
mod Resilience
mod Groups
mod Failure
mod Legacy
mod Models
mod Sorting
mod Selection
mod Registration
