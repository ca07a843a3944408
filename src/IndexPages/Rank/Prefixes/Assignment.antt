-- ===== src/IndexPages/Rank/Prefixes/Assignment.antt =====
-- The writes by which `prefixes` of rank.rs puts each result where its key stands in the batch.
use editchain.Prelude.{ℕ, zero, suc, ◌≡◌, ◌≢◌, refl, ap, ◌∙◌, List, [], ◌∷◌, ◌++◌, map, All, length}
use editchain.IndexPages.Rank.{Measure}
use editchain.IndexPages.Rank.Prefixes.{write, blank, enumerate_from, write_all}

-- Writes at different places may be swapped.
pub write-write :
    (i j : ℕ) (x y : Measure) (output : List Measure)
    → i ≢ j
    → write i x (write j y output) ≡ write j y (write i x output)
unfolding write
write-write i j x y [] h = refl
write-write zero zero x y (z ∷ output) h = absurd (h refl)
write-write zero (suc j) x y (z ∷ output) h = refl
write-write (suc i) zero x y (z ∷ output) h = refl
write-write (suc i) (suc j) x y (z ∷ output) h =
    ap (λ zs. z ∷ zs) (write-write i j x y output (λ e. h (ap suc e)))

module _ {ℓ} {K : Type ℓ} where
  -- One write for each query, of what a function says of its key.
  unfoldable pub assign : (K → Measure) → List (K × ℕ) → List Measure → List Measure
  assign f [] output = output
  assign f ((key, index) ∷ queries) output = assign f queries (write index (f key) output)

  pub write_all-assign :
      (queries : List (K × ℕ)) (sum : Measure) (output : List Measure)
      → write_all queries sum output ≡ assign (λ _. sum) queries output
  unfolding write_all assign
  write_all-assign [] sum output = refl
  write_all-assign ((key, index) ∷ rest) sum output =
      write_all-assign rest sum (write index sum output)

  pub assign-append :
      (f : K → Measure) (xs ys : List (K × ℕ)) (output : List Measure)
      → assign f (xs ++ ys) output ≡ assign f ys (assign f xs output)
  unfolding assign
  assign-append f [] ys output = refl
  assign-append f ((key, index) ∷ xs) ys output = assign-append f xs ys (write index (f key) output)

  pub assign-same :
      (f g : K → Measure) (queries : List (K × ℕ)) (output : List Measure)
      → All (λ q. f q.0 ≡ g q.0) queries
      → assign f queries output ≡ assign g queries output
  unfolding assign
  assign-same f g [] output h = refl
  assign-same f g ((key, index) ∷ rest) output h =
      ap (λ m. assign f rest (write index m output)) h.0
      ∙ assign-same f g rest (write index (g key) output) h.1

  assign-suc :
      (f : K → Measure) (n : ℕ) (keys : List K) (x : Measure) (output : List Measure)
      → assign f (enumerate_from (suc n) keys) (x ∷ output)
        ≡ x ∷ assign f (enumerate_from n keys) output
  unfolding assign enumerate_from write
  assign-suc f n [] x output = refl
  assign-suc f n (key ∷ keys) x output = assign-suc f (suc n) keys x (write n (f key) output)

  -- The writes of a whole batch, in its order, are a map.
  pub assign-enumerate :
      (f : K → Measure) (keys : List K)
      → assign f (enumerate_from 0 keys) (blank (length keys)) ≡ map f keys
  unfolding assign enumerate_from blank write
  assign-enumerate f [] = refl
  assign-enumerate f (key ∷ keys) =
      assign-suc f 0 keys (f key) (blank (length keys))
      ∙ ap (λ ms. f key ∷ ms) (assign-enumerate f keys)
