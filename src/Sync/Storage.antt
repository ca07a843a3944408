-- ===== src/Sync/Storage.antt =====
-- The trait `ReplicationStorage` of crates/editchain-sync/src/storage.rs, over the state `R` of an implementation and its
-- errors `E`. Every method but `namespace` may change the state, as an implementation has cells behind `&self`.
use editchain.Prelude.{◌≡◌, Bool, true, false, Option, none, some, List, Result, All}
use editchain.Core.Ids.{Bytes}
use editchain.Sync.Action.{Action, ◌>>=◌, pure, Returns}
use editchain.Sync.Record.{RecordKey, Snapshot, contains}
use editchain.Sync.Message.{Object}

pub record Storage {ℓ κ} (R : Type ℓ) (E : Type κ) : Type (ℓ ⊔ κ) where
  pub namespace : R → Bytes
  pub ensure_scope : Action R E (Unit {0})
  pub snapshot : Action R E Snapshot
  pub receiving_snapshot : Action R E Snapshot
  -- The snapshot that the caller lends comes back changed, also beside an error.
  pub ingest_records :
      List (RecordKey × Bytes) → Snapshot → R → (R × Snapshot) × Result E (Unit {0})
  pub blob_hashes : Snapshot → RecordKey → Action R E (List Bytes)
  pub read_blob : Snapshot → RecordKey → Bytes → Action R E (Option Bytes)
  pub ingest_blob : RecordKey → Bytes → Bytes → Action R E (Unit {0})
  pub confirm_blob : Snapshot → RecordKey → Bytes → Action R E Bool

-- The default of `confirm_blob`, over the two methods that it calls.
module _ {ℓ κ} {R : Type ℓ} {E : Type κ}
    (read_blob : Snapshot → RecordKey → Bytes → Action R E (Option Bytes))
    (ingest_blob : RecordKey → Bytes → Bytes → Action R E (Unit {0})) where
  abbrev pub publish_again : RecordKey → Bytes → Option Bytes → Action R E Bool
  publish_again key hash none = pure false
  publish_again key hash (some bytes) = do done ← ingest_blob key hash bytes; pure true

  unfoldable pub default_confirm_blob : Snapshot → RecordKey → Bytes → Action R E Bool
  default_confirm_blob snapshot key hash = do
    bytes ← read_blob snapshot key hash
    publish_again key hash bytes

-- What the trait's comments promise of durable storage, for a predicate on what a state has durably retained. Nothing
-- durable is lost, whatever a method returns.
pub record Durability {ℓ κ} {R : Type ℓ} {E : Type κ} (api : Storage R E)
    (IsDurable : R → Object → Type 0) : Type (ℓ ⊔ κ) where
  pub scope_keeps : (r : R) (o : Object) → IsDurable r o → IsDurable (api.ensure_scope r).0 o
  pub snapshot_keeps : (r : R) (o : Object) → IsDurable r o → IsDurable (api.snapshot r).0 o
  pub receiving_keeps :
      (r : R) (o : Object) → IsDurable r o → IsDurable (api.receiving_snapshot r).0 o
  pub records_keep :
      (batch : List (RecordKey × Bytes)) (local : Snapshot) (r : R) (o : Object)
      → IsDurable r o
      → IsDurable (api.ingest_records batch local r).0.0 o
  pub hashes_keep :
      (local : Snapshot) (key : RecordKey) (r : R) (o : Object)
      → IsDurable r o
      → IsDurable (api.blob_hashes local key r).0 o
  pub read_keeps :
      (local : Snapshot) (key : RecordKey) (hash : Bytes) (r : R) (o : Object)
      → IsDurable r o
      → IsDurable (api.read_blob local key hash r).0 o
  pub blob_keeps :
      (key : RecordKey) (hash bytes : Bytes) (r : R) (o : Object)
      → IsDurable r o
      → IsDurable (api.ingest_blob key hash bytes r).0 o
  pub confirm_keeps :
      (local : Snapshot) (key : RecordKey) (hash : Bytes) (r : R) (o : Object)
      → IsDurable r o
      → IsDurable (api.confirm_blob local key hash r).0 o
  -- The evidence that saves a download is durable.
  pub receiving_durable :
      (r : R)
      → Returns (api.receiving_snapshot r) (λ r' local.
        (key : RecordKey)
        → contains local key ≡ true
        → IsDurable r' (record { key = key; blob = none }))
  -- A batch without an error is durable, and the snapshot has grown by durable records only.
  pub records_durable :
      (batch : List (RecordKey × Bytes)) (local : Snapshot) (r : R)
      → Returns (api.ingest_records batch local r) (λ done _.
        All (λ item. IsDurable done.0 (record { key = item.0; blob = none })) batch
        × ((key : RecordKey)
            → contains done.1 key ≡ true
            → (contains local key ≡ false)
            → IsDurable done.0 (record { key = key; blob = none })))
  pub blob_durable :
      (key : RecordKey) (hash bytes : Bytes) (r : R)
      → Returns
          (api.ingest_blob key hash bytes r)
          (λ r' _. IsDurable r' (record { key = key; blob = some hash }))
