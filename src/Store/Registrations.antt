-- ===== src/Store/Registrations.antt =====
-- `MemoryRegistrationRepository` of larp_bot/adapters/memory.py: first the methods, then what is
-- proved of them.
pub mod State
pub mod Enlist
pub mod Updates
pub mod Linked
pub mod Positions
pub mod Retries
pub mod Signups
pub mod Repeats
pub mod Sift
pub mod Sifted
