-- ===== src/Application.antt =====
-- The services of larp_bot/application.
pub mod UnarchivedEvents
pub mod GameClosings
pub mod Effects
pub mod Worker
pub mod Mutations
pub mod Support
pub mod Deadlines
pub mod Openings
pub mod TableLinks
pub mod Notifications
pub mod RegistrationOpenings
