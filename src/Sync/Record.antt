-- ===== src/Sync/Record.antt =====
-- crates/editchain-sync/src/replica.rs: the identity of an exact record, and the snapshot of an inventory. What `decode_op`
-- finds of an operation, which the `postcard` crate decodes, and the `blake3` hash are the interface `RecordFormat`.
use editchain.Prelude.{
  ℕ, ◌≡◌, Bool, true, false, not, Option, none, some, List, [], ◌∷◌, length, ltb, bytes_eq,
  if◌then◌else◌, Result, ok, err, stuck, ◌>>=◌, ◌>>◌, ok_or, fail_if, saturating_add, take,
}
use Prim.Native.Nat.{Ordering}
use editchain.Order.{Ord, cmp}
use editchain.Order.Product.{ord_on, ord_pair}
use editchain.Order.Number.{ord_number}
use editchain.Order.Lexicographic.{ord_list}
use editchain.Collections.Map.{Map, Set, find, put}
use editchain.Core.Ids.{Bytes, OpId}

abbrev pub max_object_bytes : ℕ
max_object_bytes = 67108864

abbrev pub inventory_page : ℕ
inventory_page = 128

-- `invalid` is the error of that name, `unsupported` the error of an incompatible peer, and `other` one of a library.
pub data SyncError {κ} (E : Type κ) : Type κ where
  invalid unsupported other : SyncError E
  storage : E → SyncError E

pub record RecordKey : Type 0 where
  pub id : OpId
  pub digest : Bytes

abbrev pub key_fields : RecordKey → OpId × Bytes
key_fields k = (k.id, k.digest)

pub key_injective : (a b : RecordKey) → key_fields a ≡ key_fields b → a ≡ b
key_injective a b h i = record { id = (h i).0; digest = (h i).1 }

instance unfoldable pub ord_record_key : Ord RecordKey
ord_record_key = ord_on ord_pair key_fields key_injective

-- The operation's identity and the identities of its parents, and the hash of some bytes.
pub record RecordFormat : Type 0 where
  pub decode_op : Bytes → Option (OpId × List OpId)
  pub hash : Bytes → Bytes

abbrev pub same_key : RecordKey → RecordKey → Bool
same_key a b = elim (cmp a b) [ Ordering.eq ↦ true | _ ↦ false ]

abbrev pub is_some {ℓ} : {A : Type ℓ} → Option A → Bool
is_some none = false
is_some (some a) = true

-- The sum of the lengths of a batch.
abbrev pub total_bytes : List (RecordKey × Bytes) → ℕ → ℕ
total_bytes [] size = size
total_bytes ((key, bytes) ∷ rest) size = total_bytes rest (saturating_add size (length bytes))

module _ {κ} {E : Type κ} (format : RecordFormat) where
  unfoldable pub from_encoded : Bytes → Result (SyncError E) RecordKey
  from_encoded bytes = do
    fail_if (ltb max_object_bytes (length bytes)) SyncError.invalid
    op ← ok_or (format.decode_op bytes) SyncError.other
    ok (record { id = op.0; digest = format.hash bytes })

  -- The loop of `validate_records`.
  unfoldable pub validate_keys : List (RecordKey × Bytes) → Result (SyncError E) (Unit {0})
  validate_keys [] = ok tt
  validate_keys ((key, bytes) ∷ rest) = do
    actual ← from_encoded bytes
    fail_if (not (same_key actual key)) SyncError.invalid
    validate_keys rest

  unfoldable pub validate_records : List (RecordKey × Bytes) → Result (SyncError E) (Unit {0})
  validate_records records =
      if ltb inventory_page (length records)
      then err SyncError.invalid
      else (if ltb max_object_bytes (total_bytes records 0)
          then err SyncError.invalid
          else validate_keys records)

pub record Snapshot : Type 0 where
  pub records : Map RecordKey Bytes
  pub received : Set RecordKey
  pub received_blobs : Set Bytes
  pub scope_revision : ℕ

abbrev pub no_snapshot : Snapshot
no_snapshot = record { records = []; received = []; received_blobs = []; scope_revision = 0 }

unfoldable pub lookup : Snapshot → RecordKey → Option Bytes
lookup snapshot key = find snapshot.records key

unfoldable pub contains : Snapshot → RecordKey → Bool
contains snapshot key = is_some (lookup snapshot key)

unfoldable pub received_blob : Snapshot → Bytes → Snapshot
received_blob snapshot hash = record snapshot {
  received_blobs = put snapshot.received_blobs hash tt;
}

abbrev pub collides : Option Bytes → Bytes → Bool
collides none encoded = false
collides (some previous) encoded = not (bytes_eq previous encoded)

module _ {κ} {E : Type κ} (format : RecordFormat) where
  abbrev pub insert_at :
      Snapshot → Bytes → Result (SyncError E) RecordKey → Snapshot × Result (SyncError E) RecordKey
  insert_at snapshot encoded (ok key) =
      if collides (lookup snapshot key) encoded
      then (snapshot, err SyncError.invalid)
      else (record snapshot { records = put snapshot.records key encoded }, ok key)
  insert_at snapshot encoded (err e) = (snapshot, err e)
  insert_at snapshot encoded stuck = (snapshot, stuck)

  unfoldable pub insert_encoded : Snapshot → Bytes → Snapshot × Result (SyncError E) RecordKey
  insert_encoded snapshot encoded = insert_at snapshot encoded (from_encoded format encoded)

-- The keys behind an exclusive cursor, in order.
unfoldable pub range_after : Map RecordKey Bytes → Option RecordKey → List RecordKey
range_after [] after = []
range_after ((key, bytes) ∷ rest) none = key ∷ range_after rest none
range_after ((key, bytes) ∷ rest) (some cursor) = elim (cmp cursor key) [
  | Ordering.lt ↦ key ∷ range_after rest (some cursor)
  | _ ↦ range_after rest (some cursor)
]

unfoldable pub page_after : Snapshot → Option RecordKey → List RecordKey × Bool
page_after snapshot after =
    let keys = range_after snapshot.records after in
    (take inventory_page keys, ltb inventory_page (length keys))
