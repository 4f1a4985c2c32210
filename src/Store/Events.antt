-- ===== src/Store/Events.antt =====
-- `MemoryEventRepository` of larp_bot/adapters/memory.py: first the methods, then what is proved
-- of them.
pub mod State
pub mod Schedules
pub mod Closing
pub mod Details
pub mod Tables
pub mod Delivery
pub mod Listing
pub mod Pages
