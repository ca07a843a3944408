-- ===== src/Store/Format.antt =====
-- crates/editchain-store/src/format: the bytes of a segment file.
pub mod Records
pub mod Checksum
pub mod Ec03
pub mod Scan
pub mod Page
