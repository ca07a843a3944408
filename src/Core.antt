-- ===== src/Core.antt =====
-- The crate editchain-core.
pub mod Admission
pub mod Ids
