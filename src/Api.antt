-- ===== src/Api.antt =====
-- backend/internal/apiutil: what the handlers share.
pub mod Authz
pub mod Paging
