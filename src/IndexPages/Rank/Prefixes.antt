-- ===== src/IndexPages/Rank/Prefixes.antt =====
-- rank.rs: `prefixes`, the prefix weights of a batch of keys in one walk over the tree.
use Prim.Native.Nat.{Ordering}
pub mod Assignment
pub mod Ascent
pub mod Batch
use editchain.Prelude.{ℕ, zero, suc, List, [], ◌∷◌, length}
use editchain.Order.{Ord, cmp}
use editchain.IndexPages.Rank.{Measure, no_measure, plus, Link, empty, node, measure}

-- A write through `get_mut`: nothing where the index is out of range.
unfoldable pub write : ℕ → Measure → List Measure → List Measure
write i value [] = []
write zero value (x ∷ xs) = value ∷ xs
write (suc i) value (x ∷ xs) = x ∷ write i value xs

-- `vec![Measure::default(); n]`.
unfoldable pub blank : ℕ → List Measure
blank zero = []
blank (suc n) = no_measure ∷ blank n

module _ {ℓ} {K : Type ℓ} where
  unfoldable pub enumerate_from : ℕ → List K → List (K × ℕ)
  enumerate_from n [] = []
  enumerate_from n (key ∷ keys) = (key, n) ∷ enumerate_from (suc n) keys

  -- Each query gets the same value.
  unfoldable pub write_all : List (K × ℕ) → Measure → List Measure → List Measure
  unfolding write
  write_all [] value output = output
  write_all ((key, index) ∷ queries) value output =
      write_all queries value (write index value output)

module _ {ℓ} {K : Type ℓ} ⦃o : Ord K⦄ where
  -- `sort_unstable_by` on the keys, as an insertion sort.
  unfoldable pub place : K × ℕ → List (K × ℕ) → List (K × ℕ)
  place query [] = query ∷ []
  place query (next ∷ rest) = elim (cmp query.0 next.0) [
    | Ordering.gt ↦ next ∷ place query rest
    | _ ↦ query ∷ (next ∷ rest)
  ]

  unfoldable pub sort_queries : List (K × ℕ) → List (K × ℕ)
  unfolding place
  sort_queries [] = []
  sort_queries (query ∷ queries) = place query (sort_queries queries)

  -- `partition_point` and `split_at`: the queries up to the first one above the key, and the others.
  unfoldable pub split_queries : K → List (K × ℕ) → List (K × ℕ) × List (K × ℕ)
  split_queries key [] = ([], [])
  split_queries key (query ∷ queries) = elim (cmp query.0 key) [
    | Ordering.gt ↦ ([], query ∷ queries)
    | _ ↦ let (left, right) = split_queries key queries in (query ∷ left, right)
  ]

module _ {ℓ κ} {K : Type ℓ} {V : Type κ} ⦃o : Ord K⦄ where
  unfoldable pub prefix_batch : Link K V → List (K × ℕ) → Measure → List Measure → List Measure
  unfolding split_queries write_all
  prefix_batch empty queries sum output = write_all queries sum output
  prefix_batch (node k v w s h left right) [] sum output = output
  prefix_batch (node k v w s h left right) (query ∷ queries) sum output =
      let (before, after) = split_queries k (query ∷ queries) in
      prefix_batch right after (plus (plus sum (measure left)) w)
        (prefix_batch left before sum output)

  unfoldable pub prefixes : Link K V → List K → List Measure
  unfolding prefix_batch sort_queries enumerate_from blank
  prefixes root keys =
      prefix_batch root (sort_queries (enumerate_from 0 keys)) no_measure (blank (length keys))
