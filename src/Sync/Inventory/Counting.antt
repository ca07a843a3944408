-- ===== src/Sync/Inventory/Counting.antt =====
-- What the search of crates/editchain-sync/src/inventory.rs keeps: a key is in the order once its last step is done.
use editchain.Prelude.{
  eq_true, eq_false, ℕ, suc, ◌+◌, ◌<◌, ◌≡◌, sym, ap, ◌∙◌, Bool, true, false, ◌⊎◌, inl, inr, some,
  List, [], ◌∷◌, ◌++◌, length, get_elem?, leb, ◌==◌, arith, All, All-append, Bool-cases, leb_cases,
}
use editchain.Order.{Lt}
use editchain.Collections.Map.{same, same→eq, same-eq, Lt-ne-eq}
use editchain.Core.Ids.{OpId}
use editchain.Sync.Record.{RecordKey, ord_record_key}
use editchain.Sync.Inventory.{Search, mark, emit, zeros, push_parents, set_elem}
use editchain.Sync.Inventory.Stack.{
  bit, closing, IsPending, closing-push_parents, IsPending-push_parents, get-set_same,
  get-set_other, marked, zeros-get,
}
use editchain.Sync.Inventory.Marks.{get_elem?-lt}
use editchain.Sync.Inventory.Termination.{Kept}

same_refl : (key : RecordKey) → same key key ≡ true
same_refl key = same-eq key key (ord_record_key.cmp_refl key)

-- How often a key stands in a list.
abbrev pub occurrences : RecordKey → List RecordKey → ℕ
occurrences key [] = 0
occurrences key (x ∷ xs) = bit (same key x) + occurrences key xs

occurrences-append :
    (key : RecordKey) (xs ys : List RecordKey)
    → occurrences key (xs ++ ys) ≡ occurrences key xs + occurrences key ys
occurrences-append key [] ys = omega arith
occurrences-append key (x ∷ xs) ys = omega (arith, occurrences-append key xs ys)

closed :
    (n c index seen : ℕ)
    → n ≡ bit (leb 2 seen)
    → bit (index == index) + c ≡ bit (seen == 1)
    → (n ≡ 0) × (c ≡ 0)
closed n c index seen h k = ground arith

opened :
    (n c d j index seen m : ℕ)
    → (seen == 0) ≡ true
    → (j == index) ≡ true
    → 1 ≡ m
    → d ≡ bit (j == index) + c
    → n ≡ bit (leb 2 seen)
    → c ≡ bit (seen == 1)
    → (n ≡ bit (leb 2 m)) × (d ≡ bit (m == 1))
opened n c d j index seen m z g one e h k = ground arith

last_mark : (n seen : ℕ) → (seen == 0) ≡ false → n ≡ bit (leb 2 seen) → 0 ≡ bit (seen == 1) → n ≡ 1
last_mark n seen z h k = ground arith

fresh_marks : (seen : ℕ) → seen ≡ 0 → (0 ≡ bit (leb 2 seen)) × (0 ≡ bit (seen == 1))
fresh_marks seen h = ground arith

pub Lt-self : (k : RecordKey) → Lt k k → ⊥
Lt-self k h = Lt-ne-eq k k h (ord_record_key.cmp_refl k)

module _ (keys : List RecordKey)
    (distinct : (i j : ℕ) (key : RecordKey)
      → get_elem? keys i ≡ some key
      → get_elem? keys j ≡ some key
      → i ≡ j) where
  -- A key is in the order when its mark is at least 2, and its last step is on the stack when its mark is 1.
  abbrev Counts : List (ℕ × Bool) → Search → Type 0
  Counts pending now =
      (index : ℕ) (key : RecordKey) (seen : ℕ)
      → get_elem? keys index ≡ some key
      → get_elem? now.state index ≡ some seen
      → (occurrences key now.ordered ≡ bit (leb 2 seen)) × (closing index pending ≡ bit (seen == 1))

  abbrev IsEntered : ℕ → Search → Type 0
  IsEntered index now = (seen : ℕ) → get_elem? now.state index ≡ some seen → (seen == 0) ≡ false

  -- The keys below the bound are entered, or on the stack to be entered.
  abbrev IsReached : ℕ → List (ℕ × Bool) → Search → Type 0
  IsReached bound pending now =
      (index : ℕ) → index < bound → IsPending index pending ⊎ IsEntered index now

  -- The order has keys of the inventory only.
  abbrev AreKnown : List RecordKey → Type 0
  AreKnown order = All (λ key. (index : ℕ) × (get_elem? keys index ≡ some key)) order

  abbrev pub Sorts : ℕ → List (ℕ × Bool) → Search → Type 0
  Sorts bound pending now =
      Counts pending now × (IsReached bound pending now × AreKnown now.ordered)

  -- The key that is finished had the mark 1, and has the mark 2.
  finished-same :
      (index : ℕ) (key : RecordKey) (seen : ℕ) (pending : List (ℕ × Bool)) (now : Search)
      (k : RecordKey) (m : ℕ)
      → get_elem? keys index ≡ some key
      → get_elem? now.state index ≡ some seen
      → Counts ((index, true) ∷ pending) now
      → get_elem? keys index ≡ some k
      → get_elem? (set_elem index 2 now.state) index ≡ some m
      → (occurrences k (now.ordered ++ (key ∷ [])) ≡ bit (leb 2 m))
        × (closing index pending ≡ bit (m == 1))
  finished-same index key seen pending now k m e f h ek fm =
      coe 0 1
        (i.
          (occurrences (same_key i) (now.ordered ++ (key ∷ [])) ≡ bit (leb 2 (mark_two i)))
          × (closing index pending ≡ bit (mark_two i == 1)))
        (
          omega (
            arith,
            occurrences-append key now.ordered (key ∷ []),
            ap bit (same_refl key),
            before.0,
          ),
          before.1,
        )
    where
      same_key : key ≡ k
      same_key = let g : some key ≡ some k = sym e ∙ ek in cc

      mark_two : 2 ≡ m
      mark_two = let g : some 2 ≡ some m = sym (get-set_same index 2 seen now.state f) ∙ fm in cc

      before : (occurrences key now.ordered ≡ 0) × (closing index pending ≡ 0)
      before =
          closed (occurrences key now.ordered) (closing index pending) index seen
            (h index key seen e f).0 (h index key seen e f).1

  -- Another key is as it was.
  finished-other :
      (index : ℕ) (key : RecordKey) (pending : List (ℕ × Bool)) (now : Search) (j : ℕ)
      (k : RecordKey) (m : ℕ)
      → get_elem? keys index ≡ some key
      → Counts ((index, true) ∷ pending) now
      → (j == index) ≡ false
      → get_elem? keys j ≡ some k
      → get_elem? (set_elem index 2 now.state) j ≡ some m
      → (occurrences k (now.ordered ++ (key ∷ [])) ≡ bit (leb 2 m))
        × (closing j pending ≡ bit (m == 1))
  finished-other index key pending now j k m e h g ek fm = (
    omega (arith, occurrences-append k now.ordered (key ∷ []), ap bit apart, before.0),
    omega (arith, ap bit g, before.1),
  )
    where
      before :
          (occurrences k now.ordered ≡ bit (leb 2 m))
          × (bit (j == index) + closing j pending ≡ bit (m == 1))
      before = h j k m ek (sym (get-set_other index 2 j now.state (eq_false j index g)) ∙ fm)

      apart : same k key ≡ false
      apart = elim (Bool-cases (same k key)) [
        | inr s ↦ s
        | inl s ↦
            absurd
              (eq_false j index g (distinct j index k ek (e ∙ ap some (sym (same→eq k key s)))))
      ]

  finished-Counts :
      (index : ℕ) (key : RecordKey) (seen : ℕ) (pending : List (ℕ × Bool)) (now : Search)
      → get_elem? keys index ≡ some key
      → get_elem? now.state index ≡ some seen
      → Counts ((index, true) ∷ pending) now
      → Counts pending (emit index key now)
  finished-Counts index key seen pending now e f h j k m ej fj = elim (Bool-cases (j == index)) [
    | inl g ↦
        let p : j ≡ index = eq_true j index g in
        coe 1 0
          (i.
            (occurrences k (now.ordered ++ (key ∷ [])) ≡ bit (leb 2 m))
            × (closing (p i) pending ≡ bit (m == 1)))
          (finished-same index key seen pending now k m e f h
            (coe 0 1 (i. get_elem? keys (p i) ≡ some k) ej)
            (coe 0 1 (i. get_elem? (set_elem index 2 now.state) (p i) ≡ some m) fj))
    | inr g ↦ finished-other index key pending now j k m e h g ej fj
  ]

  entered-Counts :
      (index : ℕ) (key : RecordKey) (seen : ℕ) (pending : List (ℕ × Bool)) (now : Search)
      (parents : List OpId)
      → get_elem? keys index ≡ some key
      → get_elem? now.state index ≡ some seen
      → (seen == 0) ≡ true
      → Counts ((index, false) ∷ pending) now
      → Counts (push_parents keys parents ((index, true) ∷ pending)) (mark index 1 now)
  entered-Counts index key seen pending now parents e f z h j k m ej fj =
      elim (Bool-cases (j == index)) [
        | inl g ↦
            let p : j ≡ index = eq_true j index g in
            let old = h j k seen ej (coe 1 0 (i. get_elem? now.state (p i) ≡ some seen) f) in
            let two : some 1 ≡ some m =
              sym (get-set_same index 1 seen now.state f)
              ∙ coe 0 1 (i. get_elem? (set_elem index 1 now.state) (p i) ≡ some m) fj in
            let one : 1 ≡ m = cc in
            opened (occurrences k now.ordered) (closing j pending) _ j index seen m z g one
              (closing-push_parents keys parents j ((index, true) ∷ pending)) old.0 old.1
        | inr g ↦
            let old =
              h j k m ej (sym (get-set_other index 1 j now.state (eq_false j index g)) ∙ fj) in
            (
              old.0,
              closing-push_parents keys parents j ((index, true) ∷ pending)
                  ∙ omega (arith, ap bit g, old.1),
            )
      ]

  -- A mark that is set is not taken away.
  set-IsEntered :
      (index value j : ℕ) (now : Search) (order : List RecordKey)
      → 0 < value
      → IsEntered j now
      → IsEntered j (record { state = set_elem index value now.state; ordered = order })
  set-IsEntered index value j now order v h m fj = elim (Bool-cases (j == index)) [
    | inl g ↦
        marked index value m now.state v (
          coe 0 1 (i. get_elem? (set_elem index value now.state) (eq_true j index g i) ≡ some m) fj)
    | inr g ↦ h m (sym (get-set_other index value j now.state (eq_false j index g)) ∙ fj)
  ]

  finished-IsReached :
      (bound index : ℕ) (key : RecordKey) (pending : List (ℕ × Bool)) (now : Search)
      → IsReached bound ((index, true) ∷ pending) now
      → IsReached bound pending (emit index key now)
  finished-IsReached bound index key pending now h j b = elim (h j b) [
    | inl p ↦ inl p
    | inr p ↦ inr (set-IsEntered index 2 j now (now.ordered ++ (key ∷ [])) (omega arith) p)
  ]

  passed-IsReached :
      (bound index seen : ℕ) (pending : List (ℕ × Bool)) (now : Search)
      → get_elem? now.state index ≡ some seen
      → (seen == 0) ≡ false
      → IsReached bound ((index, false) ∷ pending) now
      → IsReached bound pending now
  passed-IsReached bound index seen pending now f z h j b = elim (h j b) [
    | inl (inl p) ↦ inr (λ m fj.
        let e : some m ≡ some seen =
          sym fj ∙ coe 1 0 (i. get_elem? now.state (p i) ≡ some seen) f in
        let g : seen ≡ m = cc in coe 0 1 (i. (g i == 0) ≡ false) z)
    | inl (inr p) ↦ inl p
    | inr p ↦ inr p
  ]

  entered-IsReached :
      (bound index : ℕ) (pending : List (ℕ × Bool)) (now : Search) (parents : List OpId)
      → IsReached bound ((index, false) ∷ pending) now
      → IsReached bound (push_parents keys parents ((index, true) ∷ pending)) (mark index 1 now)
  entered-IsReached bound index pending now parents h j b = elim (h j b) [
    | inl (inl p) ↦ inr (λ m fj.
        marked index 1 m now.state (omega arith)
          (coe 0 1 (i. get_elem? (set_elem index 1 now.state) (p i) ≡ some m) fj))
    | inl (inr p) ↦ inl (IsPending-push_parents keys parents j ((index, true) ∷ pending) p)
    | inr p ↦ inr (set-IsEntered index 1 j now now.ordered (omega arith) p)
  ]

  pub Sorts-Kept : (bound : ℕ) → Kept keys (Sorts bound)
  Sorts-Kept bound = record {
    finished = λ index key seen pending now e f h. (
      finished-Counts index key seen pending now e f h.0,
      (
        finished-IsReached bound index key pending now h.1.0,
        All-append (λ k. (index : ℕ) × (get_elem? keys index ≡ some k)) now.ordered (key ∷ []) h.1.1
            ((index, e), tt),
      ),
    );
    passed = λ index key seen pending now e f z h.
        (h.0, (passed-IsReached bound index seen pending now f z h.1.0, h.1.1));
    entered = λ index key seen pending now parents e f z h. (
      entered-Counts index key seen pending now parents e f z h.0,
      (entered-IsReached bound index pending now parents h.1.0, h.1.1),
    );
  }

  pub Sorts-begin :
      (start : ℕ) (now : Search) → Sorts start [] now → Sorts (suc start) ((start, false) ∷ []) now
  Sorts-begin start now h = (h.0, (reach, h.1.1))
    where
      reach : IsReached (suc start) ((start, false) ∷ []) now
      reach j b = elim (leb_cases start j) [
        | inl p ↦ inl (inl (omega arith))
        | inr p ↦ elim (h.1.0 j p) [ inl q ↦ absurd q | inr q ↦ inr q ]
      ]

  pub Sorts-new : (n : ℕ) → Sorts 0 [] (record { state = zeros n; ordered = [] })
  Sorts-new n = (unmarked n, ((λ j b. absurd (omega arith)), tt))
    where
      unmarked :
          (n : ℕ) (index : ℕ) (key : RecordKey) (seen : ℕ)
          → get_elem? keys index ≡ some key
          → get_elem? (zeros n) index ≡ some seen
          → (0 ≡ bit (leb 2 seen)) × (0 ≡ bit (seen == 1))
      unmarked n index key seen e f = fresh_marks seen (zeros-get n index seen f)

  -- At the end every key is in the order once.
  pub Sorts-occurrences :
      (now : Search) (index : ℕ) (key : RecordKey)
      → Sorts (length keys) [] now
      → length now.state ≡ length keys
      → index < length keys
      → get_elem? keys index ≡ some key
      → occurrences key now.ordered ≡ 1
  Sorts-occurrences now index key h sized b e =
      let (seen, f) = get_elem?-lt now.state index (omega (arith, b, sized)) in
      elim (h.1.0 index b) [
        | inl q ↦ absurd q
        | inr q ↦
            last_mark (occurrences key now.ordered) seen (q seen f) (h.0 index key seen e f).0
              (h.0 index key seen e f).1
      ]
