-- ===== src/Sync/Inventory/Termination.antt =====
-- The search of crates/editchain-sync/src/inventory.rs ends, also on cycles of parents, and gives an order if every record
-- can be read.
use editchain.Prelude.{
  ℕ, zero, suc, ◌+◌, ◌≤◌, ◌≡◌, refl, ap, ◌∙◌, Bool, true, false, some, List, [], ◌∷◌, length,
  get_elem?, ◌==◌, Result, ok, ◌>>=◌, ok_or, arith, inl, inr, Bool-cases,
}
use editchain.Order.{Lt}
use editchain.Collections.Map.{Map, find, IsMap, IsAbove, find-head, find-tail, gt-ne-eq}
use editchain.Core.Ids.{Bytes, OpId}
use editchain.Sync.Record.{RecordKey, ord_record_key, RecordFormat, SyncError}
use editchain.Sync.Inventory.{
  Search, Visit, mark, emit, parent_ids, react, visit, walk, from_starts, keys_of, push_parents,
}
use editchain.Sync.Inventory.Marks.{
  unentered, get_elem?-lt, length-set_elem, unentered-set_elem, unentered-enter, AreKeys,
  push_parents-AreKeys,
}

-- What every step of the search keeps, of the stack and the marks.
pub record Kept (keys : List RecordKey) (P : List (ℕ × Bool) → Search → Type 0) : Type 0 where
  pub finished :
      (index : ℕ) (key : RecordKey) (seen : ℕ) (pending : List (ℕ × Bool)) (now : Search)
      → get_elem? keys index ≡ some key
      → get_elem? now.state index ≡ some seen
      → P ((index, true) ∷ pending) now
      → P pending (emit index key now)
  pub passed :
      (index : ℕ) (key : RecordKey) (seen : ℕ) (pending : List (ℕ × Bool)) (now : Search)
      → get_elem? keys index ≡ some key
      → get_elem? now.state index ≡ some seen
      → (seen == 0) ≡ false
      → P ((index, false) ∷ pending) now
      → P pending now
  pub entered :
      (index : ℕ) (key : RecordKey) (seen : ℕ) (pending : List (ℕ × Bool)) (now : Search)
      (parents : List OpId)
      → get_elem? keys index ≡ some key
      → get_elem? now.state index ≡ some seen
      → (seen == 0) ≡ true
      → P ((index, false) ∷ pending) now
      → P (push_parents keys parents ((index, true) ∷ pending)) (mark index 1 now)

module _ {κ} (E : Type κ) (format : RecordFormat) (records : Map RecordKey Bytes)
    (keys : List RecordKey) where
  abbrev Found : Type κ
  Found = Result (SyncError E) Search

  walk-next :
      (fuel index : ℕ) (finish : Bool) (pending : List (ℕ × Bool)) (now later : Search)
      → visit {E = E} format records keys index finish now ≡ ok (Visit.next later)
      → walk {E = E} format records keys fuel ((index, finish) ∷ pending) now
        ≡ walk format records keys fuel pending later
  unfolding walk
  walk-next zero index finish pending now later e = rw (walk, e) refl
  walk-next (suc fuel) index finish pending now later e = rw (walk, e) refl

  walk-enter :
      (fuel index : ℕ) (finish : Bool) (pending : List (ℕ × Bool)) (now : Search)
      (parents : List OpId)
      → visit {E = E} format records keys index finish now ≡ ok (Visit.enter parents)
      → walk {E = E} format records keys (suc fuel) ((index, finish) ∷ pending) now
        ≡ walk format records keys fuel
            (push_parents keys parents ((index, true) ∷ pending))
            (mark index 1 now)
  unfolding walk
  walk-enter fuel index finish pending now parents e = rw (walk, e) refl

  visit-react :
      (index : ℕ) (finish : Bool) (now : Search) (key : RecordKey) (seen : ℕ)
      → get_elem? keys index ≡ some key
      → get_elem? now.state index ≡ some seen
      → visit {E = E} format records keys index finish now
        ≡ react format records keys finish (seen == 0) index key now
  unfolding visit
  visit-react index finish now key seen e f = rw (e, f) refl

  visit-passes :
      (index : ℕ) (now : Search) (key : RecordKey) (seen : ℕ)
      → get_elem? keys index ≡ some key
      → get_elem? now.state index ≡ some seen
      → (seen == 0) ≡ false
      → visit {E = E} format records keys index false now ≡ ok (Visit.next now)
  visit-passes index now key seen e f g =
      visit-react index false now key seen e f
      ∙ ap (λ b. react format records keys false b index key now) g

  visit-enters :
      (index : ℕ) (now : Search) (key : RecordKey) (seen : ℕ) (parents : List OpId)
      → get_elem? keys index ≡ some key
      → get_elem? now.state index ≡ some seen
      → (seen == 0) ≡ true
      → parent_ids {E = E} format records keys key ≡ ok parents
      → visit {E = E} format records keys index false now ≡ ok (Visit.enter parents)
  visit-enters index now key seen parents e f g p =
      visit-react index false now key seen e f
      ∙ ap (λ b. react format records keys false b index key now) g
      ∙ ap (λ r. r >>= λ ids. ok (Visit.enter ids)) p

  -- Each key has a record whose parents can be read.
  abbrev pub IsReadable : Type κ
  IsReadable =
      (index : ℕ) (key : RecordKey)
      → get_elem? keys index ≡ some key
      → (parents : List OpId) × (parent_ids {E = E} format records keys key ≡ ok parents)

  -- A search that has ended, with a mark for each key and no more keys to enter than before, and with what its steps
  -- keep.
  abbrev pub Ended : (List (ℕ × Bool) → Search → Type 0) → Search → Found → Type κ
  Ended P now x =
      (later : Search) × (x ≡ ok later)
      × (length later.state ≡ length keys)
      × (unentered later.state ≤ unentered now.state)
      × P [] later

  Ended-eq :
      (P : List (ℕ × Bool) → Search → Type 0) (now later : Search) (x y : Found)
      → x ≡ y
      → unentered later.state ≤ unentered now.state
      → Ended P later y
      → Ended P now x
  Ended-eq P now later x y e h (last, f, sized, fewer, kept) =
      (last, e ∙ f, sized, omega arith, kept)

  pub walk-Ended :
      (P : List (ℕ × Bool) → Search → Type 0)
      → Kept keys P
      → (fuel : ℕ) (pending : List (ℕ × Bool)) (now : Search) → IsReadable
      → AreKeys (length keys) pending
      → length now.state ≡ length keys
      → unentered now.state ≤ fuel
      → P pending now
      → Ended P now (walk format records keys fuel pending now)
  unfolding walk
  walk-Ended P kept fuel [] now readable h sized few p = (now, refl, sized, omega arith, p)
  walk-Ended P kept fuel ((index, true) ∷ pending) now readable h sized few p =
      let (key, e) = get_elem?-lt keys index h.0 in
      let (seen, f) = get_elem?-lt now.state index (omega (arith, h.0, sized)) in
      Ended-eq P now (emit index key now) _ _
        (walk-next fuel index true pending now (emit index key now)
          (visit-react index true now key seen e f))
        (unentered-set_elem index 2 now.state (omega arith))
        (walk-Ended P kept fuel pending (emit index key now) readable h.1
          (length-set_elem index 2 now.state ∙ sized)
          (omega (arith, unentered-set_elem index 2 now.state (omega arith)))
          (kept.finished index key seen pending now e f p))
  walk-Ended P kept zero ((index, false) ∷ pending) now readable h sized few p =
      let (key, e) = get_elem?-lt keys index h.0 in
      let (seen, f) = get_elem?-lt now.state index (omega (arith, h.0, sized)) in
      elim (Bool-cases (seen == 0)) [
        | inr g ↦
            Ended-eq P now now _ _
              (walk-next zero index false pending now now (visit-passes index now key seen e f g))
              (omega arith)
              (walk-Ended P kept zero pending now readable h.1 sized few
                (kept.passed index key seen pending now e f g p))
        | inl g ↦
            absurd (omega (arith, few, unentered-enter index 1 now.state seen (omega arith) f g))
      ]
  walk-Ended P kept (suc fuel) ((index, false) ∷ pending) now readable h sized few p =
      let (key, e) = get_elem?-lt keys index h.0 in
      let (seen, f) = get_elem?-lt now.state index (omega (arith, h.0, sized)) in
      elim (Bool-cases (seen == 0)) [
        | inr g ↦
            Ended-eq P now now _ _
              (walk-next (suc fuel) index false pending now now
                (visit-passes index now key seen e f g))
              (omega arith)
              (walk-Ended P kept (suc fuel) pending now readable h.1 sized few
                (kept.passed index key seen pending now e f g p))
        | inl g ↦
            Ended-eq P now (mark index 1 now) _ _
              (walk-enter fuel index false pending now (readable index key e).0 (
                visit-enters index now key seen (readable index key e).0 e f g
                  (readable index key e).1))
              (unentered-set_elem index 1 now.state (omega arith))
              (walk-Ended P kept fuel
                (push_parents keys (readable index key e).0 ((index, true) ∷ pending))
                (mark index 1 now) readable
                (push_parents-AreKeys keys (readable index key e).0 ((index, true) ∷ pending)
                  (h.0, h.1))
                (length-set_elem index 1 now.state ∙ sized)
                (omega (arith, few, unentered-enter index 1 now.state seen (omega arith) f g))
                (kept.entered index key seen pending now (readable index key e).0 e f g p))
      ]

  pub from_starts-Ended :
      (P : ℕ → List (ℕ × Bool) → Search → Type 0)
      → ((start : ℕ) → Kept keys (P start))
      → ((start : ℕ) (now : Search) → P start [] now → P (suc start) ((start, false) ∷ []) now)
      → (count start : ℕ) (now : Search) → IsReadable
      → start + count ≡ length keys
      → length now.state ≡ length keys
      → unentered now.state ≤ length keys
      → P start [] now
      → Ended (P (length keys)) now (from_starts format records keys count start now)
  unfolding from_starts
  from_starts-Ended P kept begin zero start now readable h sized few p =
      (now, refl, sized, omega arith, coe 0 1 (i. P (ended i) [] now) p)
    where
      ended : start ≡ length keys
      ended = omega arith
  from_starts-Ended P kept begin (suc count) start now readable h sized few p =
      let (later, e, sized', fewer, q) =
        walk-Ended (P (suc start)) (kept (suc start)) (length keys) ((start, false) ∷ []) now
          readable (omega arith, tt) sized few (begin start now p) in
      Ended-eq (P (length keys)) now later _ _
        (ap (λ x. x >>= λ s. from_starts format records keys count (suc start) s) e) fewer
        (from_starts-Ended P kept begin count (suc start) later readable (omega arith) sized'
          (omega arith) q)

-- Every record of an inventory decodes.
abbrev pub Decodes : RecordFormat → Map RecordKey Bytes → Type 0
Decodes format [] = Unit
Decodes format ((key, bytes) ∷ rest) =
    (op : OpId × List OpId) × (format.decode_op bytes ≡ some op) × Decodes format rest

pub above-at :
    (records : Map RecordKey Bytes) (index : ℕ) (k key : RecordKey)
    → IsAbove k records
    → get_elem? (keys_of records) index ≡ some key
    → Lt k key
above-at [] index k key h e = cc
above-at ((x, bytes) ∷ rest) zero k key h e = let f : x ≡ key = cc in coe 0 1 (i. Lt k (f i)) h.0
above-at ((x, bytes) ∷ rest) (suc index) k key h e = above-at rest index k key h.1 e

-- A key of a map has its record, and the record decodes.
pub record-at :
    (format : RecordFormat) (records : Map RecordKey Bytes) (index : ℕ) (key : RecordKey)
    → IsMap records
    → Decodes format records
    → get_elem? (keys_of records) index ≡ some key
    → (bytes : Bytes) × (op : OpId × List OpId) × (find records key ≡ some bytes)
      × (format.decode_op bytes ≡ some op)
record-at format [] index key m d e = cc
record-at format ((k, bytes) ∷ rest) zero key m (op, decoded, d) e =
    let f : k ≡ key = cc in
    (
      bytes,
      op,
      coe 0 1 (i. find ((k, bytes) ∷ rest) (f i) ≡ some bytes) (find-head k bytes rest),
      decoded,
    )
record-at format ((k, bytes) ∷ rest) (suc index) key m (op, decoded, d) e =
    let (found, op', f, decoded') = record-at format rest index key m.1 d e in
    (
      found,
      op',
      find-tail k bytes rest key
            (gt-ne-eq key k (ord_record_key.cmp-lt k key (above-at rest index k key m.0 e)))
          ∙ f,
      decoded',
    )

module _ {κ} (E : Type κ) where
  pub readable :
      (format : RecordFormat) (records : Map RecordKey Bytes)
      → IsMap records
      → Decodes format records
      → IsReadable E format records (keys_of records)
  unfolding parent_ids
  readable format records m d index key e =
      let (bytes, op, f, decoded) = record-at format records index key m d e in
      (
        op.1,
        ap
              (λ o. ok_or o SyncError.invalid >>= λ b.
                ok_or (format.decode_op b) SyncError.other >>= λ p. ok p.1)
              f
            ∙ ap (λ o. ok_or o SyncError.other >>= λ p. ok p.1) decoded,
      )
