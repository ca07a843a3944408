-- ===== src/Tests/Shelf.antt =====
-- A storage for the tests: a shelf of what is durable, where every write lasts.
use editchain.Prelude.{
  ◌≡◌, refl, ap, ◌∙◌, true, false, ◌⊎◌, inl, inr, Option, none, some, List, [], ◌∷◌, ok, All,
  if◌then◌else◌, Bool-cases,
}
use editchain.Collections.Map.{Map, find, put, same, find-put, same→eq}
use editchain.Core.Ids.{Bytes, OpId}
use editchain.Sync.Action.{Action, holds, resume}
use editchain.Sync.Record.{
  RecordKey, ord_record_key, RecordFormat, Snapshot, no_snapshot, contains, lookup, is_some,
}
use editchain.Sync.Message.{Object, ord_object}
use editchain.Sync.Storage.{Storage, Durability, default_confirm_blob, publish_again}

abbrev pub Shelf : Type 0
Shelf = List (Object × Bytes)

abbrev pub IsOn : Shelf → Object → Type 0
IsOn [] o = ⊥
IsOn (item ∷ rest) o = (o ≡ item.0) ⊎ IsOn rest o

-- An operation is its identity, and a parent's identity if there is one; its hash is itself.
abbrev pub decode : Bytes → Option (OpId × List OpId)
decode [] = none
decode (a ∷ []) = some (a ∷ [], [])
decode (a ∷ (b ∷ rest)) = some (a ∷ [], (b ∷ []) ∷ [])

abbrev pub test_format : RecordFormat
test_format = record { decode_op = decode; hash = λ bytes. bytes }

abbrev pub shelved : Map RecordKey Bytes → Object → Bytes → Map RecordKey Bytes
shelved records object bytes = elim object.blob [
  | none ↦ put records object.key bytes
  | some hash ↦ records
]

abbrev pub records_on : Shelf → Map RecordKey Bytes
records_on [] = []
records_on (item ∷ rest) = shelved (records_on rest) (item.0) (item.1)

abbrev pub on_shelf : Shelf → Snapshot
on_shelf shelf = record no_snapshot { records = records_on shelf }

abbrev pub shelve : List (RecordKey × Bytes) → Shelf → Shelf
shelve [] shelf = shelf
shelve (item ∷ rest) shelf = (record { key = item.0; blob = none }, item.1) ∷ shelve rest shelf

abbrev pub on_shelf_bytes : Shelf → Object → Option Bytes
on_shelf_bytes [] o = none
on_shelf_bytes (item ∷ rest) o = elim (same o (item.0)) [
  | true ↦ some (item.1)
  | false ↦ on_shelf_bytes rest o
]

abbrev pub read : Snapshot → RecordKey → Bytes → Action Shelf (Unit {0}) (Option Bytes)
read local key hash shelf =
    (shelf, ok (on_shelf_bytes shelf (record { key = key; blob = some hash })))

abbrev pub publish : RecordKey → Bytes → Bytes → Action Shelf (Unit {0}) (Unit {0})
publish key hash bytes shelf = ((record { key = key; blob = some hash }, bytes) ∷ shelf, ok tt)

-- The third byte of a record, if there is one, is the hash of its content.
abbrev pub third : Bytes → List Bytes
third (a ∷ (b ∷ (c ∷ rest))) = (c ∷ []) ∷ []
third _ = []

abbrev pub shelf_api : Storage Shelf (Unit {0})
shelf_api = record {
  namespace = λ shelf. 97 ∷ [];
  ensure_scope = λ shelf. (shelf, ok tt);
  snapshot = λ shelf. (shelf, ok (on_shelf shelf));
  receiving_snapshot = λ shelf. (shelf, ok (on_shelf shelf));
  ingest_records =
      λ batch local shelf. ((shelve batch shelf, on_shelf (shelve batch shelf)), ok tt);
  blob_hashes = λ local key shelf. (shelf, ok (third key.digest));
  read_blob = read;
  ingest_blob = publish;
  confirm_blob = default_confirm_blob read publish;
}

IsOn-shelve :
    (batch : List (RecordKey × Bytes)) (shelf : Shelf) (o : Object)
    → IsOn shelf o
    → IsOn (shelve batch shelf) o
IsOn-shelve [] shelf o h = h
IsOn-shelve (item ∷ rest) shelf o h = inr (IsOn-shelve rest shelf o h)

batch-IsOn :
    (batch : List (RecordKey × Bytes)) (shelf : Shelf)
    → All (λ item. IsOn (shelve batch shelf) (record { key = item.0; blob = none })) batch
batch-IsOn [] shelf = tt
batch-IsOn (item ∷ rest) shelf = (inl refl, weaken rest (batch-IsOn rest shelf))
  where
    weaken :
        (xs : List (RecordKey × Bytes))
        → All (λ x. IsOn (shelve rest shelf) (record { key = x.0; blob = none })) xs
        → All (λ x. IsOn (shelve (item ∷ rest) shelf) (record { key = x.0; blob = none })) xs
    weaken [] h = tt
    weaken (x ∷ xs) h = (inr h.0, weaken xs h.1)

found-put :
    (records : Map RecordKey Bytes) (key k : RecordKey) (bytes : Bytes)
    → is_some (find (put records k bytes) key) ≡ true
    → (key ≡ k) ⊎ (is_some (find records key) ≡ true)
found-put records key k bytes h = elim (Bool-cases (same key k)) [
  | inl e ↦ inl (same→eq key k e)
  | inr e ↦ inr (coe 0 1 (i. is_some (read_back e i) ≡ true) h)
]
  where
    read_back : same key k ≡ false → find (put records k bytes) key ≡ find records key
    read_back e =
        find-put records k bytes key ∙ ap (λ t. if t then some bytes else find records key) e

abbrev object_at : RecordKey → Option Bytes → Object
object_at key blob = record { key = key; blob = blob }

found_above :
    (records : Map RecordKey Bytes) (key k : RecordKey) (blob : Option Bytes) (bytes : Bytes)
    → is_some (find (shelved records (record { key = k; blob = blob }) bytes) key) ≡ true
    → (object_at key none ≡ object_at k blob) ⊎ (is_some (find records key) ≡ true)
found_above records key k none bytes h = elim (found-put records key k bytes h) [
  | inl e ↦ inl (ap (λ t. object_at t none) e)
  | inr f ↦ inr f
]
found_above records key k (some hash) bytes h = inr h

records_on-IsOn :
    (shelf : Shelf) (key : RecordKey)
    → is_some (find (records_on shelf) key) ≡ true
    → IsOn shelf (record { key = key; blob = none })
unfolding find
records_on-IsOn [] key h = cc
records_on-IsOn (item ∷ rest) key h =
    elim (found_above (records_on rest) key (item.0.key) (item.0.blob) (item.1) h) [
      | inl e ↦ inl e
      | inr f ↦ inr (records_on-IsOn rest key f)
    ]

confirm-Returns :
    (key : RecordKey) (hash : Bytes) (bytes : Option Bytes) (shelf : Shelf) (o : Object)
    → IsOn shelf o
    → IsOn (publish_again read publish key hash bytes shelf).0 o
unfolding resume
confirm-Returns key hash none shelf o h = h
confirm-Returns key hash (some bytes) shelf o h = inr h

pub shelf_durable : Durability shelf_api IsOn
unfolding contains lookup default_confirm_blob resume
shelf_durable = record {
  scope_keeps = λ r o h. h;
  snapshot_keeps = λ r o h. h;
  receiving_keeps = λ r o h. h;
  records_keep = λ batch local r o h. IsOn-shelve batch r o h;
  hashes_keep = λ local key r o h. h;
  read_keeps = λ local key hash r o h. h;
  blob_keeps = λ key hash bytes r o h. inr h;
  confirm_keeps = λ local key hash r o h.
      confirm-Returns key hash (on_shelf_bytes r (record { key = key; blob = some hash })) r o h;
  receiving_durable = λ r. holds (λ key h. records_on-IsOn r key h);
  records_durable = λ batch local r.
      holds (batch-IsOn batch r, λ key h _. records_on-IsOn (shelve batch r) key h);
  blob_durable = λ key hash bytes r. holds (inl refl);
}
