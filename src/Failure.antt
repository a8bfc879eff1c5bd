-- ===== src/Failure.antt =====
-- internal/provider/error_category.go and errors.go: errors and their classes.
pub mod Category
pub mod Error
pub mod Laws
