-- ===== src/Models.antt =====
-- backend/internal/store/models: the enumerations, the scope of a role, and the rows that the
-- authorization code reads. A Go enumeration is a string type, so each has a case for a string
-- that no constant names.
pub mod Enums
pub mod Rbac
