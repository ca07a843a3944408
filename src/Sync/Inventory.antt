-- ===== src/Sync/Inventory.antt =====
-- crates/editchain-sync/src/inventory.rs: the parents before their children, by a depth-first search on a stack.
use Prim.Native.Nat.{Ordering}
use editchain.Prelude.{
  ℕ, zero, suc, ◌-◌, Bool, true, false, List, [], ◌∷◌, ◌++◌, length, get_elem?, ◌==◌, Result, ok,
  err, stuck, ◌>>=◌, ok_or,
}
use editchain.Order.{cmp}
use editchain.Order.Number.{ord_number}
use editchain.Order.Lexicographic.{ord_list}
use editchain.Collections.Map.{Map, find}
use editchain.Core.Ids.{Bytes, OpId}
use editchain.Sync.Record.{RecordKey, ord_record_key, RecordFormat, SyncError}
pub mod Marks
pub mod Termination
pub mod Stack
pub mod Counting
pub mod Export

abbrev pub below : OpId → OpId → Bool
below a b = elim (cmp a b) [ Ordering.lt ↦ true | _ ↦ false ]

abbrev pub not_above : OpId → OpId → Bool
not_above a b = elim (cmp a b) [ Ordering.gt ↦ false | _ ↦ true ]

-- `partition_point`, of keys in order.
unfoldable pub partition_point : (RecordKey → Bool) → List RecordKey → ℕ
partition_point test [] = 0
partition_point test (key ∷ rest) = elim (test key) [
  | true ↦ suc (partition_point test rest)
  | false ↦ 0
]

-- The entries `first..end` of the stack, the first on top.
unfoldable pub entries : ℕ → ℕ → List (ℕ × Bool)
entries first zero = []
entries first (suc count) = (first, false) ∷ entries (suc first) count

-- The top of the stack is the head of the list, so the variants of a later parent stand before those of an earlier one.
unfoldable pub push_parents : List RecordKey → List OpId → List (ℕ × Bool) → List (ℕ × Bool)
push_parents keys [] pending = pending
push_parents keys (parent ∷ rest) pending =
    let first = partition_point (λ key. below (key.id) parent) keys in
    let end = partition_point (λ key. not_above (key.id) parent) keys in
    push_parents keys rest (entries first (end - first) ++ pending)

unfoldable pub set_elem : ℕ → ℕ → List ℕ → List ℕ
set_elem index value [] = []
set_elem zero value (x ∷ xs) = value ∷ xs
set_elem (suc index) value (x ∷ xs) = x ∷ set_elem index value xs

-- The marks of the keys (0, or 1 while a key's parents are visited, or 2), and the keys in their order so far.
pub record Search : Type 0 where
  pub state : List ℕ
  pub ordered : List RecordKey

abbrev pub mark : ℕ → ℕ → Search → Search
mark index value now = record now { state = set_elem index value now.state }

-- The last step of a key.
abbrev pub emit : ℕ → RecordKey → Search → Search
emit index key now = record {
  state = set_elem index 2 now.state;
  ordered = now.ordered ++ (key ∷ []);
}

-- The top of the stack has been dealt with, or its key is entered, with these parents.
pub data Visit : Type 0 where
  next : Search → Visit
  enter : List OpId → Visit

module _ {κ} {E : Type κ} (format : RecordFormat) (records : Map RecordKey Bytes)
    (keys : List RecordKey) where
  unfoldable pub parent_ids : RecordKey → Result (SyncError E) (List OpId)
  parent_ids key = do
    bytes ← ok_or (find records key) SyncError.invalid
    op ← ok_or (format.decode_op bytes) SyncError.other
    ok op.1

  abbrev pub entered : Result (SyncError E) (List OpId) → Result (SyncError E) Visit
  entered parents = parents >>= λ ids. ok (Visit.enter ids)

  -- `if finish`, `else if *seen == 0`
  abbrev pub react : Bool → Bool → ℕ → RecordKey → Search → Result (SyncError E) Visit
  react true unseen index key now = ok (Visit.next (emit index key now))
  react false true index key now = entered (parent_ids key)
  react false false index key now = ok (Visit.next now)

  -- What the loop does with the top of the stack.
  unfoldable pub visit : ℕ → Bool → Search → Result (SyncError E) Visit
  visit index finish now = do
    key ← ok_or (get_elem? keys index) SyncError.invalid
    seen ← ok_or (get_elem? now.state index) SyncError.invalid
    react finish (seen == 0) index key now

  -- The loop on the stack. The fuel bounds the keys still to be entered; a step that enters none drops an entry.
  unfoldable pub walk : ℕ → List (ℕ × Bool) → Search → Result (SyncError E) Search
  walk fuel [] now = ok now
  walk zero ((index, finish) ∷ pending) now = elim (visit index finish now) [
    | ok (Visit.next later) ↦ walk zero pending later
    | ok (Visit.enter parents) ↦ stuck
    | err e ↦ err e
    | stuck ↦ stuck
  ]
  walk (suc fuel) ((index, finish) ∷ pending) now = elim (visit index finish now) [
    | ok (Visit.next later) ↦ walk (suc fuel) pending later
    | ok (Visit.enter parents) ↦
        walk fuel (push_parents keys parents ((index, true) ∷ pending)) (mark index 1 now)
    | err e ↦ err e
    | stuck ↦ stuck
  ]

  -- The loop over the starts: `count` of them, from `start`.
  unfoldable pub from_starts : ℕ → ℕ → Search → Result (SyncError E) Search
  from_starts zero start now = ok now
  from_starts (suc count) start now = do
    later ← walk (length keys) ((start, false) ∷ []) now
    from_starts count (suc start) later

abbrev pub keys_of : Map RecordKey Bytes → List RecordKey
keys_of [] = []
keys_of ((key, bytes) ∷ rest) = key ∷ keys_of rest

abbrev pub zeros : ℕ → List ℕ
zeros zero = []
zeros (suc n) = 0 ∷ zeros n

unfoldable pub parent_first {κ} :
    {E : Type κ} → RecordFormat → Map RecordKey Bytes → Result (SyncError E) (List RecordKey)
parent_first format records = do
  done ←
      from_starts format records (keys_of records) (length (keys_of records)) 0
        (record { state = zeros (length (keys_of records)); ordered = [] })
  ok done.ordered
