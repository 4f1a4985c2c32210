-- ===== src/Store.antt =====
-- The repositories of larp_bot/adapters/memory.py, on which adapters/aws/dynamodb.py runs too.
pub mod Registrations
pub mod Events
pub mod Users
pub mod Publisher
