-- ===== src/Sync/Inventory/Stack.antt =====
-- The stack and the marks of crates/editchain-sync/src/inventory.rs, counted: the last steps that are on the stack, the keys
-- that are to be entered, and a mark after another is set.
use editchain.Prelude.{
  ℕ, zero, suc, ◌+◌, ◌<◌, ◌≡◌, ◌≢◌, refl, ap, ◌∙◌, Bool, true, false, ◌⊎◌, inr, some, List, [], ◌∷◌,
  ◌++◌, get_elem?, ◌==◌, arith,
}
use editchain.Core.Ids.{OpId}
use editchain.Sync.Record.{RecordKey}
use editchain.Sync.Inventory.{zeros, push_parents, set_elem, entries}

abbrev pub bit : Bool → ℕ
bit true = 1
bit false = 0

-- How often the last step of a key is on the stack.
abbrev pub closing : ℕ → List (ℕ × Bool) → ℕ
closing index [] = 0
closing index ((j, true) ∷ pending) = bit (index == j) + closing index pending
closing index ((j, false) ∷ pending) = closing index pending

abbrev pub IsPending : ℕ → List (ℕ × Bool) → Type 0
IsPending index [] = ⊥
IsPending index ((j, true) ∷ pending) = IsPending index pending
IsPending index ((j, false) ∷ pending) = (index ≡ j) ⊎ IsPending index pending

closing-entries :
    (index first count : ℕ) (pending : List (ℕ × Bool))
    → closing index (entries first count ++ pending) ≡ closing index pending
unfolding entries
closing-entries index first zero pending = refl
closing-entries index first (suc count) pending = closing-entries index (suc first) count pending

pub closing-push_parents :
    (keys : List RecordKey) (parents : List OpId) (index : ℕ) (pending : List (ℕ × Bool))
    → closing index (push_parents keys parents pending) ≡ closing index pending
unfolding push_parents
closing-push_parents keys [] index pending = refl
closing-push_parents keys (parent ∷ rest) index pending =
    closing-push_parents keys rest index _ ∙ closing-entries index _ _ pending

IsPending-entries :
    (index first count : ℕ) (pending : List (ℕ × Bool))
    → IsPending index pending
    → IsPending index (entries first count ++ pending)
unfolding entries
IsPending-entries index first zero pending h = h
IsPending-entries index first (suc count) pending h =
    inr (IsPending-entries index (suc first) count pending h)

pub IsPending-push_parents :
    (keys : List RecordKey) (parents : List OpId) (index : ℕ) (pending : List (ℕ × Bool))
    → IsPending index pending
    → IsPending index (push_parents keys parents pending)
unfolding push_parents
IsPending-push_parents keys [] index pending h = h
IsPending-push_parents keys (parent ∷ rest) index pending h =
    IsPending-push_parents keys rest index _ (IsPending-entries index _ _ pending h)

pub get-set_same :
    (index value seen : ℕ) (xs : List ℕ)
    → get_elem? xs index ≡ some seen
    → get_elem? (set_elem index value xs) index ≡ some value
unfolding set_elem
get-set_same index value seen [] h = cc
get-set_same zero value seen (x ∷ xs) h = refl
get-set_same (suc index) value seen (x ∷ xs) h = get-set_same index value seen xs h

pub get-set_other :
    (index value other : ℕ) (xs : List ℕ)
    → other ≢ index
    → get_elem? (set_elem index value xs) other ≡ get_elem? xs other
unfolding set_elem
get-set_other index value other [] h = refl
get-set_other zero value zero (x ∷ xs) h = absurd (h refl)
get-set_other zero value (suc other) (x ∷ xs) h = refl
get-set_other (suc index) value zero (x ∷ xs) h = refl
get-set_other (suc index) value (suc other) (x ∷ xs) h =
    get-set_other index value other xs (λ e. h (ap suc e))

pub marked :
    (index value m : ℕ) (xs : List ℕ)
    → 0 < value
    → get_elem? (set_elem index value xs) index ≡ some m
    → (m == 0) ≡ false
unfolding set_elem
marked index value m [] v h = cc
marked zero value m (x ∷ xs) v h = let e : value ≡ m = cc in ground arith
marked (suc index) value m (x ∷ xs) v h = marked index value m xs v h

pub zeros-get : (n index seen : ℕ) → get_elem? (zeros n) index ≡ some seen → seen ≡ 0
zeros-get zero index seen h = cc
zeros-get (suc n) zero seen h = cc
zeros-get (suc n) (suc index) seen h = zeros-get n index seen h
