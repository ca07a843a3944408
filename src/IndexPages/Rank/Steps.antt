-- ===== src/IndexPages/Rank/Steps.antt =====
-- rank.rs: the edits and the search at a node, by the outcome of the comparison with its key.
use Prim.Native.Nat.{Ordering}
use editchain.Prelude.{ℕ, ◌≡◌, some}
use editchain.Order.{Ord, cmp}
use editchain.IndexPages.Rank.{Measure, Link, node, balance, replace_node, insert, remove, get}

module _ {ℓ κ} {K : Type ℓ} {V : Type κ} ⦃o : Ord K⦄ (k : K) (v : V) (w s : Measure) (h : ℕ)
    (l r : Link K V) (key : K) where
  pub insert-lt :
      (value : V) (weight : Measure)
      → cmp key k ≡ Ordering.lt
      → insert (node k v w s h l r) key value weight
        ≡ (balance (node k v w s h (insert l key value weight).0 r), (insert l key value weight).1)
  unfolding insert
  insert-lt value weight e = rw (e, insert)

  pub insert-gt :
      (value : V) (weight : Measure)
      → cmp key k ≡ Ordering.gt
      → insert (node k v w s h l r) key value weight
        ≡ (balance (node k v w s h l (insert r key value weight).0), (insert r key value weight).1)
  unfolding insert
  insert-gt value weight e = rw (e, insert)

  pub insert-eq :
      (value : V) (weight : Measure)
      → cmp key k ≡ Ordering.eq
      → insert (node k v w s h l r) key value weight
        ≡ (balance (node k value weight s h l r), some v)
  unfolding insert
  insert-eq value weight e = rw (e, insert)

  pub remove-lt :
      cmp key k ≡ Ordering.lt
      → remove (node k v w s h l r) key
        ≡ (balance (node k v w s h (remove l key).0 r), (remove l key).1)
  unfolding remove
  remove-lt e = rw (e, remove)

  pub remove-gt :
      cmp key k ≡ Ordering.gt
      → remove (node k v w s h l r) key
        ≡ (balance (node k v w s h l (remove r key).0), (remove r key).1)
  unfolding remove
  remove-gt e = rw (e, remove)

  pub remove-eq : cmp key k ≡ Ordering.eq → remove (node k v w s h l r) key ≡ replace_node v l r
  unfolding remove
  remove-eq e = rw (e, remove)

  pub get-lt : cmp key k ≡ Ordering.lt → get (node k v w s h l r) key ≡ get l key
  unfolding get
  get-lt e = rw (e, get)

  pub get-gt : cmp key k ≡ Ordering.gt → get (node k v w s h l r) key ≡ get r key
  unfolding get
  get-gt e = rw (e, get)

  pub get-eq : cmp key k ≡ Ordering.eq → get (node k v w s h l r) key ≡ some v
  unfolding get
  get-eq e = rw (e, get)
