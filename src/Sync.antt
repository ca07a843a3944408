-- ===== src/Sync.antt =====
-- The crate editchain-sync.
pub mod Wire
pub mod Action
pub mod Record
pub mod Message
pub mod Progress
pub mod Storage
pub mod Inventory
pub mod Transfer
pub mod Session
