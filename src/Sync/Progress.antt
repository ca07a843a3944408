-- ===== src/Sync/Progress.antt =====
-- crates/editchain-sync/src/progress.rs: the counters of a session. They are no durable receipts.
use editchain.Prelude.{ℕ, Bool, false, Option, none}

pub record CheckProgress : Type 0 where
  pub pass : ℕ
  pub total_records : Option ℕ
  pub checked_records : ℕ
  pub complete : Bool
  pub unavailable : ℕ

abbrev pub no_check : CheckProgress
no_check = record {
  pass = 0;
  total_records = none;
  checked_records = 0;
  complete = false;
  unavailable = 0;
}

pub record DownloadProgress : Type 0 where
  pub content : Bool
  pub received_bytes : ℕ
  pub total_bytes : Option ℕ

pub record Progress : Type 0 where
  pub accepted : Bool
  pub synchronizing : Bool
  pub rounds : ℕ
  pub records : ℕ
  pub blobs : ℕ
  pub sent_records : ℕ
  pub sent_blobs : ℕ
  pub unavailable : ℕ
  pub incoming : CheckProgress
  pub outgoing : CheckProgress
  pub pending_records : ℕ
  pub pending_blobs : ℕ
  pub download : Option DownloadProgress

abbrev pub no_progress : Progress
no_progress = record {
  accepted = false;
  synchronizing = false;
  rounds = 0;
  records = 0;
  blobs = 0;
  sent_records = 0;
  sent_blobs = 0;
  unavailable = 0;
  incoming = no_check;
  outgoing = no_check;
  pending_records = 0;
  pending_blobs = 0;
  download = none;
}
