-- ===== src/Sync/Session.antt =====
-- crates/editchain-sync/src/session.rs: the state of a replication session, and how its methods reach the storage and the
-- source. `Pull` is the receiving side; `VecDeque`s are lists with their front first.
use editchain.Prelude.{
  ℕ, ◌+◌, ◌≡◌, Bool, true, false, Option, none, some, List, [], ◌∷◌, length, Result, ok, err, stuck,
  saturating_add, Option_map,
}
use editchain.Collections.Map.{Set}
use editchain.Core.Ids.{Bytes}
use editchain.Sync.Action.{Action, zoom, modify}
use editchain.Sync.Record.{RecordKey, SyncError, Snapshot, no_snapshot, is_some}
use editchain.Sync.Message.{Message, Object, peer_version}
use editchain.Sync.Progress.{CheckProgress, no_check, Progress, no_progress}
use editchain.Sync.Storage.{Storage}
use editchain.Sync.Transfer.{Download, download_progress, Source, no_source}
pub mod Pulling
pub mod Receiving
pub mod Coverage
pub mod Saving
pub mod Advancing
pub mod Offering
pub mod Honesty
pub mod Failure
pub mod Calls
pub mod Negotiation
pub mod Memory
pub mod Limits
pub mod Reach

abbrev pub batch_bytes : ℕ
batch_bytes = 4194304

pub record Pull : Type 0 where
  pub waiting_page : Bool
  pub position : ℕ
  pub after : Option RecordKey
  pub more : Bool
  pub keys : List RecordKey
  pub records : List RecordKey
  pub blobs : List Object
  pub tried : Set Object
  pub staged : List (RecordKey × Bytes)
  pub staged_bytes : ℕ
  pub download : Option Download

abbrev pub no_pull : Pull
no_pull = record {
  waiting_page = false;
  position = 0;
  after = none;
  more = false;
  keys = [];
  records = [];
  blobs = [];
  tried = [];
  staged = [];
  staged_bytes = 0;
  download = none;
}

pub record Session {ℓ} (R : Type ℓ) : Type ℓ where
  pub replica : R
  pub source : Source
  pub local : Snapshot
  pub pull : Pull
  pub progress : Progress
  pub failed : Bool

-- `Session::new`
abbrev pub session_new {ℓ} : {R : Type ℓ} → R → Session R
session_new replica = record {
  replica = replica;
  source = no_source;
  local = no_snapshot;
  pull = no_pull;
  progress = no_progress;
  failed = false;
}

abbrev pub Method {ℓ κ μ} : Type ℓ → Type κ → Type μ → Type (ℓ ⊔ κ ⊔ μ)
Method R E A = Action (Session R) (SyncError E) A

module _ {ℓ κ} {R : Type ℓ} {E : Type κ} where
  abbrev pub on_store {μ} : {A : Type μ} → Action R E A → Method R E A
  on_store = zoom (λ s. s.replica) (λ s r. record s { replica = r }) SyncError.storage

  -- A method that the session lends its snapshot.
  abbrev pub on_local {μ} : {A : Type μ} → Action (R × Snapshot) E A → Method R E A
  on_local =
      zoom (λ s. (s.replica, s.local)) (λ s t. record s { replica = t.0; local = t.1 })
        SyncError.storage

  abbrev pub on_source {μ} : {A : Type μ} → Action (Source × R) (SyncError E) A → Method R E A
  on_source =
      zoom (λ s. (s.source, s.replica)) (λ s t. record s { source = t.0; replica = t.1 }) (λ e. e)

  abbrev pub on_pull {μ} : {A : Type μ} → Action Pull (SyncError E) A → Method R E A
  on_pull = zoom (λ s. s.pull) (λ s p. record s { pull = p }) (λ e. e)

  abbrev pub set_pull : (Pull → Pull) → Method R E (Unit {0})
  set_pull f = modify (λ s. record s { pull = f s.pull })

  abbrev pub set_progress : (Progress → Progress) → Method R E (Unit {0})
  set_progress f = modify (λ s. record s { progress = f s.progress })

-- Whether a download is of a record, or of content: `usize::from(downloading.is_some_and(...))`.
abbrev pub downloading_record : Option Download → ℕ
downloading_record none = 0
downloading_record (some download) = elim download.object.blob [ none ↦ 1 | some hash ↦ 0 ]

abbrev pub downloading_blob : Option Download → ℕ
downloading_blob none = 0
downloading_blob (some download) = elim download.object.blob [ none ↦ 0 | some hash ↦ 1 ]

-- `update_work`. A `usize` fits in 64 bits, so no conversion fails.
unfoldable pub update_work {ℓ} : {R : Type ℓ} → Session R → Session R
update_work s = record s {
  progress = record s.progress {
    outgoing = s.source.progress;
    pending_records =
        saturating_add (saturating_add (length s.pull.records) (length s.pull.staged))
          (downloading_record s.pull.download);
    pending_blobs = saturating_add (length s.pull.blobs) (downloading_blob s.pull.download);
    download = Option_map download_progress s.pull.download;
  };
}
