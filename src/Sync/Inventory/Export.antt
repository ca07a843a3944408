-- ===== src/Sync/Inventory/Export.antt =====
-- The order of crates/editchain-sync/src/inventory.rs is an order of the whole inventory: each record stands in it once.
use Prim.Native.Nat.{Ordering}
use editchain.Prelude.{
  ℕ, zero, suc, ◌<◌, ◌≡◌, ◌≢◌, refl, sym, ap, ◌∙◌, true, false, inl, inr, some, List, [], ◌∷◌,
  length, get_elem?, ok, ◌>>=◌, arith, All, Bool-cases,
}
use editchain.Order.{cmp, Lt}
use editchain.Collections.Map.{Map, find, find-tail, IsMap, same, same→eq, same-eq}
use editchain.Core.Ids.{Bytes}
use editchain.Sync.Record.{RecordKey, ord_record_key, RecordFormat, is_some}
use editchain.Sync.Inventory.{keys_of, zeros, parent_first}
use editchain.Sync.Inventory.Counting.{
  occurrences, Lt-self, Sorts, Sorts-Kept, Sorts-begin, Sorts-new, Sorts-occurrences,
}
use editchain.Sync.Inventory.Marks.{unentered-zeros}
use editchain.Sync.Inventory.Termination.{from_starts-Ended, readable, Decodes, record-at, above-at}

-- The order has each record of the inventory once, and nothing else.
abbrev pub Exports : Map RecordKey Bytes → List RecordKey → Type 0
Exports records order =
    ((key : RecordKey) → is_some (find records key) ≡ true → occurrences key order ≡ 1)
    × All (λ key. is_some (find records key) ≡ true) order

keys-distinct :
    (records : Map RecordKey Bytes) (i j : ℕ) (key : RecordKey)
    → IsMap records
    → get_elem? (keys_of records) i ≡ some key
    → get_elem? (keys_of records) j ≡ some key
    → i ≡ j
keys-distinct [] i j key m e f = cc
keys-distinct ((k, bytes) ∷ rest) zero zero key m e f = refl
keys-distinct ((k, bytes) ∷ rest) zero (suc j) key m e f =
    let g : k ≡ key = cc in
    absurd (Lt-self k (coe 1 0 (i. Lt k (g i)) (above-at rest j k key m.0 f)))
keys-distinct ((k, bytes) ∷ rest) (suc i) zero key m e f =
    let g : k ≡ key = cc in
    absurd (Lt-self k (coe 1 0 (i. Lt k (g i)) (above-at rest i k key m.0 e)))
keys-distinct ((k, bytes) ∷ rest) (suc i) (suc j) key m e f =
    ap suc (keys-distinct rest i j key m.1 e f)

same-false : (a b : RecordKey) → same a b ≡ false → cmp a b ≢ Ordering.eq
same-false a b h e = let f : true ≡ false = sym (same-eq a b e) ∙ h in cc

-- A key that is found has a place.
find-place :
    (records : Map RecordKey Bytes) (key : RecordKey)
    → is_some (find records key) ≡ true
    → (index : ℕ) × (index < length (keys_of records))
      × (get_elem? (keys_of records) index ≡ some key)
unfolding find
find-place [] key h = cc
find-place ((k, bytes) ∷ rest) key h = elim (Bool-cases (same key k)) [
  | inl s ↦ (0, omega arith, ap some (sym (same→eq key k s)))
  | inr s ↦
      let (index, b, e) =
        find-place rest key
          (coe 0 1 (i. is_some (find-tail k bytes rest key (same-false key k s) i) ≡ true) h) in
      (suc index, omega arith, e)
]

known-All :
    (format : RecordFormat) (records : Map RecordKey Bytes) (order : List RecordKey)
    → IsMap records
    → Decodes format records
    → All (λ key. (index : ℕ) × (get_elem? (keys_of records) index ≡ some key)) order
    → All (λ key. is_some (find records key) ≡ true) order
known-All format records [] m d h = tt
known-All format records (key ∷ rest) m d h = (
  ap is_some (record-at format records (h.0.0) key m d h.0.1).2,
  known-All format records rest m d h.1,
)

module _ {κ} (E : Type κ) where
  -- If every record of an inventory can be decoded, then whatever parents they name, on cycles of them too, parent_first ends
  -- without an error, and its order has every record of the inventory exactly once, and no others.
  pub parent_first-Exports :
      (format : RecordFormat) (records : Map RecordKey Bytes)
      → IsMap records
      → Decodes format records
      → (order : List RecordKey) × (parent_first {E = E} format records ≡ ok order)
        × Exports records order
  unfolding parent_first
  parent_first-Exports format records m d =
      let keys = keys_of records in
      let distinct : (i j : ℕ) (key : RecordKey)
          → get_elem? keys i ≡ some key
          → get_elem? keys j ≡ some key
          → i ≡ j =
        λ i j key. keys-distinct records i j key m in
      let (done, e, sized, fewer, sorted) =
        from_starts-Ended E format records keys (Sorts keys distinct) (Sorts-Kept keys distinct)
          (Sorts-begin keys distinct) (length keys) 0
          (record { state = zeros (length keys); ordered = [] }) (readable E format records m d)
          (omega arith) (unentered-zeros (length keys)).1 (unentered-zeros (length keys)).0
          (Sorts-new keys distinct (length keys)) in
      (
        done.ordered,
        ap (λ x. x >>= λ s. ok s.ordered) e,
        (
          (λ key h.
              let (index, b, g) = find-place records key h in
              Sorts-occurrences keys distinct done index key sorted sized b g),
          known-All format records done.ordered m d sorted.1.1,
        ),
      )
