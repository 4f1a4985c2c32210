-- ===== src/Tests.antt =====
-- Concrete games, players and commands, runs of the model on them, and the theorems at them.
mod Data
mod Services
mod Distinct
mod Registrations
mod Users
mod Worker
mod Support
mod Deadlines
mod Mutations
mod Games
mod Notifications
mod RegistrationOpenings
