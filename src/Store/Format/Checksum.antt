-- ===== src/Store/Format/Checksum.antt =====
-- crates/editchain-store/src/format/ec03.rs: `checksum`, a call of the `crc` crate.
use editchain.Prelude.{ℕ, ◌^◌, ◌<◌, List}

-- The `crc` crate's CRC-32/ISCSI, which is not part of the repository. Its result is a `u32`.
pub record Crc : Type 0 where
  pub checksum : List ℕ → ℕ
  pub checksum-lt : (bytes : List ℕ) → checksum bytes < 2 ^ 32

abbrev pub checksum : ⦃c : Crc⦄ → List ℕ → ℕ
checksum ⦃c⦄ = c.checksum
