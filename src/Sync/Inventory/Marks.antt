-- ===== src/Sync/Inventory/Marks.antt =====
-- The marks of crates/editchain-sync/src/inventory.rs, and the entries of its stack: what a step changes of them.
use editchain.Prelude.{
  ℕ, zero, suc, ◌+◌, ◌-◌, ◌≤◌, ◌<◌, ◌≡◌, refl, Bool, true, some, List, [], ◌∷◌, length, get_elem?,
  ◌==◌, if◌then◌else◌, arith, All, All-append,
}
use editchain.Core.Ids.{OpId}
use editchain.Sync.Record.{RecordKey}
use editchain.Sync.Inventory.{
  partition_point, entries, push_parents, set_elem, below, not_above, zeros,
}

-- The keys that are not entered yet.
abbrev pub unentered : List ℕ → ℕ
unentered [] = 0
unentered (x ∷ xs) = (if x == 0 then 1 else 0) + unentered xs

pub get_elem?-lt {ℓ} :
    {A : Type ℓ} (xs : List A) (i : ℕ) → i < length xs → (x : A) × (get_elem? xs i ≡ some x)
get_elem?-lt [] i h = absurd (omega arith)
get_elem?-lt (x ∷ xs) zero h = (x, refl)
get_elem?-lt (x ∷ xs) (suc i) h = get_elem?-lt xs i (omega arith)

pub length-set_elem : (i value : ℕ) (xs : List ℕ) → length (set_elem i value xs) ≡ length xs
unfolding set_elem
length-set_elem i value [] = refl
length-set_elem zero value (x ∷ xs) = refl
length-set_elem (suc i) value (x ∷ xs) = omega (arith, length-set_elem i value xs)

pub unentered-set_elem :
    (i value : ℕ) (xs : List ℕ) → 0 < value → unentered (set_elem i value xs) ≤ unentered xs
unfolding set_elem
unentered-set_elem i value [] h = omega arith
unentered-set_elem zero value (x ∷ xs) h = ground arith
unentered-set_elem (suc i) value (x ∷ xs) h = omega (arith, unentered-set_elem i value xs h)

pub unentered-enter :
    (i value : ℕ) (xs : List ℕ) (seen : ℕ)
    → 0 < value
    → get_elem? xs i ≡ some seen
    → (seen == 0) ≡ true
    → unentered (set_elem i value xs) + 1 ≡ unentered xs
unfolding set_elem
unentered-enter i value [] seen h e f = cc
unentered-enter zero value (x ∷ xs) seen h e f = let g : x ≡ seen = cc in ground arith
unentered-enter (suc i) value (x ∷ xs) seen h e f =
    omega (arith, unentered-enter i value xs seen h e f)

pub unentered-zeros : (n : ℕ) → (unentered (zeros n) ≤ n) × (length (zeros n) ≡ n)
unentered-zeros zero = (omega arith, refl)
unentered-zeros (suc n) = (ground (arith, unentered-zeros n), omega (arith, (unentered-zeros n).1))

-- The entries of a stack are keys.
abbrev pub AreKeys : ℕ → List (ℕ × Bool) → Type 0
AreKeys n pending = All (λ (entry : ℕ × Bool). entry.0 < n) pending

partition_point-le :
    (test : RecordKey → Bool) (keys : List RecordKey) → partition_point test keys ≤ length keys
unfolding partition_point
partition_point-le test [] = omega arith
partition_point-le test (key ∷ rest) = ground (arith, partition_point-le test rest)

entries-AreKeys : (n first count : ℕ) → first + count ≤ n → AreKeys n (entries first count)
unfolding entries
entries-AreKeys n first zero h = tt
entries-AreKeys n first (suc count) h =
    (omega arith, entries-AreKeys n (suc first) count (omega arith))

spans : (n first end : ℕ) → first ≤ n → end ≤ n → first + (end - first) ≤ n
spans n first end h k = omega arith

pub push_parents-AreKeys :
    (keys : List RecordKey) (parents : List OpId) (pending : List (ℕ × Bool))
    → AreKeys (length keys) pending
    → AreKeys (length keys) (push_parents keys parents pending)
unfolding push_parents
push_parents-AreKeys keys [] pending h = h
push_parents-AreKeys keys (parent ∷ rest) pending h = push_parents-AreKeys keys rest _ (
    All-append (λ (entry : ℕ × Bool). entry.0 < length keys) _ pending
      (entries-AreKeys (length keys) _ _ (
        spans (length keys) _ _ (partition_point-le (λ key. below key.id parent) keys)
          (partition_point-le (λ key. not_above key.id parent) keys)))
      h)
