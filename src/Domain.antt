-- ===== src/Domain.antt =====
-- backend/internal/domain: the use cases.
pub mod Assignment
pub mod ExternalId
pub mod Membership
pub mod Parts
pub mod Message
pub mod Translation
pub mod Team
pub mod Requester
