-- ===== src/Store.antt =====
-- crates/editchain-store: the durable formats and the append log.
pub mod Format
pub mod Log
