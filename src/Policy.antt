-- ===== src/Policy.antt =====
-- backend/internal/policy: the one authorization decision point.
pub mod Action
pub mod Decision
pub mod Catalog
pub mod Scope
pub mod Roles
pub mod Translation
pub mod Grants
pub mod Sessions
pub mod Guards
pub mod Publishing
pub mod Listing
