-- ===== src/Store/Format/Records.antt =====
-- crates/editchain-store/src/format: the types that page.rs, ec03.rs and scan.rs share.
use editchain.Prelude.{ℕ, ◌*◌, List}

abbrev pub max_record_bytes : ℕ
max_record_bytes = 64 * 1024 * 1024

-- One record of a page or frame: its flags and its exact bytes.
pub record Record : Type 0 where
  pub flags : ℕ
  pub data_bytes : List ℕ

pub data FrameError : Type 0 where
  incomplete magic unsupported length checksum : FrameError
