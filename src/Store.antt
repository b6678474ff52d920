-- ===== src/Store.antt =====
-- backend/internal/store and its gormstore: what the database layer decides.
pub mod Assignments
pub mod ConversationList
pub mod Lease
pub mod Claim
pub mod Page
pub mod Translations
pub mod RoleAssignments
pub mod Receipts
