-- ===== src/Collections.antt =====
-- `std::collections`: ordered maps and sets.
pub mod Map
