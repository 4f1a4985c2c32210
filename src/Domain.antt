-- ===== src/Domain.antt =====
-- The domain model: larp_bot/domain.
pub mod Enums
pub mod Event
pub mod Registration
pub mod Queues
pub mod User
pub mod Command
