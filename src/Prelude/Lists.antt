-- ===== src/Prelude/Lists.antt =====
-- Lists measured and sliced by native numbers, under the library's names.
use Prim.Native.Nat.{ℕ, zero, suc, ◌+◌, ◌-◌, ◌≤◌, min}
use mathlib.Core.Path.{◌≡◌, refl, sym, ◌∙◌, ap}
use mathlib.Core.Bool.{Bool, true, false, ◌&&◌}
use mathlib.Core.List.{List, [], ◌∷◌, ◌++◌}
use mathlib.Core.Option.{Option, none, some}
use native.Mathlib.Omega.{arith}
use editchain.Prelude.Tests.{leb, if◌then◌else◌}

module _ {ℓ} {A : Type ℓ} where
  abbrev pub length : List A → ℕ
  length [] = 0
  length (x ∷ xs) = suc (length xs)

  abbrev pub is_empty : List A → Bool
  is_empty [] = true
  is_empty (x ∷ xs) = false

  abbrev pub last : List A → Option A
  last [] = none
  last (x ∷ []) = some x
  last (x ∷ (y ∷ ys)) = last (y ∷ ys)

  abbrev pub get_elem? : List A → ℕ → Option A
  get_elem? [] i = none
  get_elem? (x ∷ xs) zero = some x
  get_elem? (x ∷ xs) (suc i) = get_elem? xs i

  unfoldable pub take : ℕ → List A → List A
  take zero xs = []
  take (suc n) [] = []
  take (suc n) (x ∷ xs) = x ∷ take n xs

  unfoldable pub drop : ℕ → List A → List A
  drop zero xs = xs
  drop (suc n) [] = []
  drop (suc n) (x ∷ xs) = drop n xs

  pub length-append : (xs ys : List A) → length (xs ++ ys) ≡ length xs + length ys
  length-append [] ys = omega arith
  length-append (x ∷ xs) ys = omega (arith, length-append xs ys)

  pub length-take : (n : ℕ) (xs : List A) → length (take n xs) ≡ min n (length xs)
  unfolding take
  length-take zero xs = omega arith
  length-take (suc n) [] = omega arith
  length-take (suc n) (x ∷ xs) = omega (arith, length-take n xs)

  pub length-drop : (n : ℕ) (xs : List A) → length (drop n xs) ≡ length xs - n
  unfolding drop
  length-drop zero xs = omega arith
  length-drop (suc n) [] = omega arith
  length-drop (suc n) (x ∷ xs) = omega (arith, length-drop n xs)

  pub take-append-drop : (n : ℕ) (xs : List A) → take n xs ++ drop n xs ≡ xs
  unfolding take drop
  take-append-drop zero xs = refl
  take-append-drop (suc n) [] = refl
  take-append-drop (suc n) (x ∷ xs) = ap (λ t. x ∷ t) (take-append-drop n xs)

module _ {ℓ} {A : Type ℓ} where
  -- `n` is a variable with an equation, since `length xs` need not be a literal.
  pub take-append : (n : ℕ) (xs ys : List A) → n ≡ length xs → take n (xs ++ ys) ≡ xs
  unfolding take
  take-append zero [] ys h = refl
  take-append zero (x ∷ xs) ys h = absurd (omega arith)
  take-append (suc n) [] ys h = absurd (omega arith)
  take-append (suc n) (x ∷ xs) ys h = ap (λ t. x ∷ t) (take-append n xs ys (omega arith))

  pub drop-append : (n : ℕ) (xs ys : List A) → n ≡ length xs → drop n (xs ++ ys) ≡ ys
  unfolding drop
  drop-append zero [] ys h = refl
  drop-append zero (x ∷ xs) ys h = absurd (omega arith)
  drop-append (suc n) [] ys h = absurd (omega arith)
  drop-append (suc n) (x ∷ xs) ys h = drop-append n xs ys (omega arith)

  pub take-all : (n : ℕ) (xs : List A) → length xs ≤ n → take n xs ≡ xs
  unfolding take
  take-all zero [] h = refl
  take-all zero (x ∷ xs) h = absurd (omega arith)
  take-all (suc n) [] h = refl
  take-all (suc n) (x ∷ xs) h = ap (λ t. x ∷ t) (take-all n xs (omega arith))

  pub drop-all : (n : ℕ) (xs : List A) → length xs ≤ n → drop n xs ≡ []
  unfolding drop
  drop-all zero [] h = refl
  drop-all zero (x ∷ xs) h = absurd (omega arith)
  drop-all (suc n) [] h = refl
  drop-all (suc n) (x ∷ xs) h = drop-all n xs (omega arith)

  pub drop-drop : (n m k : ℕ) (xs : List A) → n + m ≡ k → drop n (drop m xs) ≡ drop k xs
  unfolding drop
  drop-drop n zero k xs h = ap (λ (t : ℕ). drop t xs) (omega arith)
  drop-drop zero (suc m) zero [] h = absurd (omega arith)
  drop-drop (suc n) (suc m) zero [] h = absurd (omega arith)
  drop-drop zero (suc m) (suc k) [] h = refl
  drop-drop (suc n) (suc m) (suc k) [] h = refl
  drop-drop n (suc m) zero (x ∷ xs) h = absurd (omega arith)
  drop-drop n (suc m) (suc k) (x ∷ xs) h = drop-drop n m k xs (omega arith)

  -- `&bytes[from..to]`, for a range that lies within.
  unfoldable pub slice : List A → ℕ → ℕ → List A
  unfolding take drop
  slice xs from to = take (to - from) (drop from xs)

  pub length-slice :
      (xs : List A) (from to : ℕ)
      → from ≤ to
      → to ≤ length xs
      → length (slice xs from to) ≡ to - from
  unfolding slice
  length-slice xs from to h k =
      omega (arith, length-take (to - from) (drop from xs), length-drop from xs)

  pub slice-append :
      (pre mid post : List A) (from to : ℕ)
      → from ≡ length pre
      → to ≡ length pre + length mid
      → slice (pre ++ (mid ++ post)) from to ≡ mid
  unfolding slice
  slice-append pre mid post from to h k =
      rw (drop-append from pre (mid ++ post) h) (take-append (to - from) mid post (omega arith))

  take-add : (n m k : ℕ) (xs : List A) → n + m ≡ k → take k xs ≡ take n xs ++ take m (drop n xs)
  unfolding take drop
  take-add zero m k xs h = ap (λ (t : ℕ). take t xs) (omega arith)
  take-add (suc n) m zero xs h = absurd (omega arith)
  take-add (suc n) zero (suc k) [] h = refl
  take-add (suc n) (suc m) (suc k) [] h = refl
  take-add (suc n) m (suc k) (x ∷ xs) h = ap (λ t. x ∷ t) (take-add n m k xs (omega arith))

  pub slice-cut :
      (xs : List A) (from mid to : ℕ)
      → from ≤ mid
      → mid ≤ to
      → slice xs from to ≡ slice xs from mid ++ slice xs mid to
  unfolding slice
  slice-cut xs from mid to h k =
      take-add (mid - from) (to - mid) (to - from) (drop from xs) (omega arith)
      ∙ ap (λ t. take (mid - from) (drop from xs) ++ take (to - mid) t)
          (drop-drop (mid - from) from mid xs (omega arith))

  take-drop-take :
      (k from n : ℕ) (xs : List A)
      → from + k ≤ n
      → take k (drop from (take n xs)) ≡ take k (drop from xs)
  unfolding take drop
  take-drop-take zero from n xs h = refl
  take-drop-take (suc k) from zero xs h = absurd (omega arith)
  take-drop-take (suc k) zero (suc n) [] h = refl
  take-drop-take (suc k) (suc from) (suc n) [] h = refl
  take-drop-take (suc k) zero (suc n) (x ∷ xs) h =
      ap (λ t. x ∷ t) (take-drop-take k zero n xs (omega arith))
  take-drop-take (suc k) (suc from) (suc n) (x ∷ xs) h =
      take-drop-take (suc k) from n xs (omega arith)

  pub slice-slice :
      (xs : List A) (n from to : ℕ)
      → from ≤ to
      → to ≤ n
      → slice (slice xs 0 n) from to ≡ slice xs from to
  unfolding slice drop
  slice-slice xs n from to h k =
      ap (λ (t : ℕ). take (to - from) (drop from (take t xs))) (omega arith)
      ∙ take-drop-take (to - from) from n xs (omega arith)

  -- A range within the front of a list does not depend on what follows.
  pub slice-prefix :
      (xs ys : List A) (from to : ℕ)
      → from ≤ to
      → to ≤ length xs
      → slice (xs ++ ys) from to ≡ slice xs from to
  slice-prefix xs ys from to h k =
      sym (slice-slice (xs ++ ys) (length xs) from to h k)
      ∙ ap (λ t. slice t from to) (slice-append [] xs ys 0 (length xs) refl (omega arith))

  -- What is left from `from` on, cut at `to`.
  pub drop-eq-slice :
      (xs : List A) (from to : ℕ) → from ≤ to → drop from xs ≡ slice xs from to ++ drop to xs
  unfolding slice
  drop-eq-slice xs from to h =
      sym (take-append-drop (to - from) (drop from xs))
      ∙ ap (λ t. take (to - from) (drop from xs) ++ t)
          (drop-drop (to - from) from to xs (omega arith))

  pub slice-append_end :
      (pre mid : List A) (from to : ℕ)
      → from ≡ length pre
      → to ≡ length pre + length mid
      → slice (pre ++ mid) from to ≡ mid
  unfolding slice
  slice-append_end pre mid from to h k =
      rw (drop-append from pre mid h) (take-all (to - from) mid (omega arith))

  pub slice-all : (xs : List A) (to : ℕ) → to ≡ length xs → slice xs 0 to ≡ xs
  unfolding slice
  slice-all xs to h = take-all (to - 0) xs (omega arith)

  pub get_elem?-append :
      (pre : List A) (x : A) (post : List A) (i : ℕ)
      → i ≡ length pre
      → get_elem? (pre ++ (x ∷ post)) i ≡ some x
  get_elem?-append [] x post zero h = refl
  get_elem?-append [] x post (suc i) h = absurd (omega arith)
  get_elem?-append (y ∷ pre) x post zero h = absurd (omega arith)
  get_elem?-append (y ∷ pre) x post (suc i) h = get_elem?-append pre x post i (omega arith)

  -- `bytes.get(from..to)`: nothing unless `from <= to <= len`.
  abbrev pub get_range : List A → ℕ → ℕ → Option (List A)
  get_range xs from to = if leb from to && leb to (length xs) then some (slice xs from to) else none

  -- `bytes.get(from..)`
  abbrev pub get_from : List A → ℕ → Option (List A)
  get_from xs from = if leb from (length xs) then some (drop from xs) else none

abbrev pub All {ℓ κ} : {A : Type ℓ} → (A → Type κ) → List A → Type κ
All P [] = Unit
All P (x ∷ xs) = P x × All P xs

abbrev pub Option_map {ℓ κ} : {A : Type ℓ} {B : Type κ} → (A → B) → Option A → Option B
Option_map f none = none
Option_map f (some a) = some (f a)

-- Maps over an option compose.
pub Option_map-map {μ ν ξ} :
    {A : Type μ} {B : Type ν} {C : Type ξ} (f : B → C) (g : A → B) (x : Option A)
    → Option_map f (Option_map g x) ≡ Option_map (λ a. f (g a)) x
Option_map-map f g none = refl
Option_map-map f g (some a) = refl

pub Option_map-id {μ} : {A : Type μ} (x : Option A) → x ≡ Option_map (λ a. a) x
Option_map-id none = refl
Option_map-id (some a) = refl

module _ {ℓ κ} {A : Type ℓ} (P : A → Type κ) where
  pub All-append : (xs ys : List A) → All P xs → All P ys → All P (xs ++ ys)
  All-append [] ys hx hy = hy
  All-append (x ∷ xs) ys hx hy = (hx.0, All-append xs ys hx.1 hy)

  pub All-front : (xs ys : List A) → All P (xs ++ ys) → All P xs
  All-front [] ys h = tt
  All-front (x ∷ xs) ys h = (h.0, All-front xs ys h.1)

  pub All-take : (n : ℕ) (xs : List A) → All P xs → All P (take n xs)
  unfolding take
  All-take zero xs h = tt
  All-take (suc n) [] h = tt
  All-take (suc n) (x ∷ xs) h = (h.0, All-take n xs h.1)

  pub All-drop : (n : ℕ) (xs : List A) → All P xs → All P (drop n xs)
  unfolding drop
  All-drop zero xs h = h
  All-drop (suc n) [] h = tt
  All-drop (suc n) (x ∷ xs) h = All-drop n xs h.1

  pub All-slice : (xs : List A) (from to : ℕ) → All P xs → All P (slice xs from to)
  unfolding slice
  All-slice xs from to h = All-take (to - from) (drop from xs) (All-drop from xs h)

module _ {ℓ} {A : Type ℓ} where
  pub slice-one :
      (xs : List A) (i : ℕ) (x : A) → get_elem? xs i ≡ some x → slice xs i (i + 1) ≡ x ∷ []
  unfolding slice take drop
  slice-one [] i x h = cc
  slice-one (y ∷ xs) zero x h = cc
  slice-one (y ∷ xs) (suc i) x h =
      ap (λ (k : ℕ). take k (drop i xs)) (omega arith) ∙ slice-one xs i x h
