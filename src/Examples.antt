-- ===== src/Examples.antt =====
-- The theorems at concrete inputs, and tests of the definitions.
pub mod Callers
pub mod Authorization
pub mod Catalogue
pub mod Assignments
pub mod Queues
pub mod Service
pub mod Sending
pub mod Shop
pub mod Translations
pub mod Requests
pub mod Approvals
pub mod Sockets
