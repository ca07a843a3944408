-- ===== src/IndexPages/Rank/Height.antt =====
-- rank.rs: the edits keep a tree balanced, and change its height by one at most.
use editchain.Prelude.{
  ℕ, ◌+◌, ◌*◌, ◌^◌, ◌≤◌, ◌≡◌, ap, ◌∙◌, inl, inr, arith, ◌∷◌, length, length-append, zero, suc,
}
use editchain.Order.{Ord, cmp, Ordering-cases}
use editchain.IndexPages.Rank.{
  Measure, Link, empty, node, height, balance, pop_min, with_children, replace_node, insert, remove,
}
use editchain.IndexPages.Rank.Steps.{
  insert-lt, insert-gt, insert-eq, remove-lt, remove-gt, remove-eq,
}
use editchain.IndexPages.Rank.Balance.{IsAvl, balance-IsBalanced, height_limit}
use editchain.IndexPages.Rank.Contents.{to_list, to_list-node}

module _ {ℓ κ} {K : Type ℓ} {V : Type κ} where
  -- A tree that one entry was taken from, or given to.
  abbrev pub IsShrunk : Link K V → Link K V → Type 0
  IsShrunk old new = IsAvl new × (height new ≤ height old) × (height old ≤ height new + 1)

  abbrev pub IsGrown : Link K V → Link K V → Type 0
  IsGrown old new = IsAvl new × (height old ≤ height new) × (height new ≤ height old + 1)

  IsShrunk-left :
      (k : K) (v : V) (w s : Measure) (h : ℕ) (k' : K) (v' : V) (w' s' : Measure) (h' : ℕ)
      (l r l' : Link K V)
      → IsAvl (node k v w s h l r)
      → h ≤ height_limit
      → IsShrunk l l'
      → IsShrunk (node k v w s h l r) (balance (node k' v' w' s' h' l' r))
  IsShrunk-left k v w s h k' v' w' s' h' l r l' (e, p, q, hl, hr) bound (avl, low, high) =
      let (avl', low', high', level) =
        balance-IsBalanced k' v' w' s' h' l' r avl hr (omega arith) (omega arith) (omega arith) in
      (avl', omega arith, omega arith)

  IsShrunk-right :
      (k : K) (v : V) (w s : Measure) (h : ℕ) (k' : K) (v' : V) (w' s' : Measure) (h' : ℕ)
      (l r r' : Link K V)
      → IsAvl (node k v w s h l r)
      → h ≤ height_limit
      → IsShrunk r r'
      → IsShrunk (node k v w s h l r) (balance (node k' v' w' s' h' l r'))
  IsShrunk-right k v w s h k' v' w' s' h' l r r' (e, p, q, hl, hr) bound (avl, low, high) =
      let (avl', low', high', level) =
        balance-IsBalanced k' v' w' s' h' l r' hl avl (omega arith) (omega arith) (omega arith) in
      (avl', omega arith, omega arith)

  IsGrown-left :
      (k : K) (v : V) (w s : Measure) (h : ℕ) (k' : K) (v' : V) (w' s' : Measure) (h' : ℕ)
      (l r l' : Link K V)
      → IsAvl (node k v w s h l r)
      → h ≤ height_limit
      → IsGrown l l'
      → IsGrown (node k v w s h l r) (balance (node k' v' w' s' h' l' r))
  IsGrown-left k v w s h k' v' w' s' h' l r l' (e, p, q, hl, hr) bound (avl, low, high) =
      let (avl', low', high', level) =
        balance-IsBalanced k' v' w' s' h' l' r avl hr (omega arith) (omega arith) (omega arith) in
      (avl', omega arith, omega arith)

  IsGrown-right :
      (k : K) (v : V) (w s : Measure) (h : ℕ) (k' : K) (v' : V) (w' s' : Measure) (h' : ℕ)
      (l r r' : Link K V)
      → IsAvl (node k v w s h l r)
      → h ≤ height_limit
      → IsGrown r r'
      → IsGrown (node k v w s h l r) (balance (node k' v' w' s' h' l r'))
  IsGrown-right k v w s h k' v' w' s' h' l r r' (e, p, q, hl, hr) bound (avl, low, high) =
      let (avl', low', high', level) =
        balance-IsBalanced k' v' w' s' h' l r' hl avl (omega arith) (omega arith) (omega arith) in
      (avl', omega arith, omega arith)

  pop_min-IsShrunk :
      (k : K) (v : V) (w s : Measure) (h : ℕ) (l r : Link K V)
      → IsAvl (node k v w s h l r)
      → h ≤ height_limit
      → IsShrunk (node k v w s h l r) (pop_min k v w s h l r).0
  unfolding pop_min
  pop_min-IsShrunk k v w s h empty r (e, p, q, hl, hr) bound = (hr, omega arith, omega arith)
  pop_min-IsShrunk k v w s h (node k' v' w' s' h' l' r') r (e, p, q, hl, hr) bound =
      IsShrunk-left k v w s h k v w s h (node k' v' w' s' h' l' r') r
        (pop_min k' v' w' s' h' l' r').0 (e, p, q, hl, hr) bound
        (pop_min-IsShrunk k' v' w' s' h' l' r' hl (omega arith))

  -- The node that takes the place of a removed one: as if the right subtree had lost an entry.
  successor-IsShrunk :
      (k : K) (v : V) (w s : Measure) (h : ℕ) (k' : K) (v' : V) (w' s' : Measure) (h' : ℕ)
      (l' r' l r c : Link K V)
      → IsAvl (node k v w s h l r)
      → h ≤ height_limit
      → IsShrunk r c
      → IsShrunk (node k v w s h l r) (balance (with_children (pop_min k' v' w' s' h' l' r').1 l c))
  unfolding pop_min
  successor-IsShrunk k v w s h k' v' w' s' h' empty r' l r c avl bound hc =
      IsShrunk-right k v w s h k' v' w' s' h' l r c avl bound hc
  successor-IsShrunk k v w s h k' v' w' s' h' (node k'' v'' w'' s'' h'' l'' r'') r' l r c avl bound
        hc =
      successor-IsShrunk k v w s h k'' v'' w'' s'' h'' l'' r'' l r c avl bound hc

  replace_node-IsShrunk :
      (k : K) (v : V) (w s : Measure) (h : ℕ) (l r : Link K V)
      → IsAvl (node k v w s h l r)
      → h ≤ height_limit
      → IsShrunk (node k v w s h l r) (replace_node v l r).0
  unfolding replace_node
  replace_node-IsShrunk k v w s h l empty (e, p, q, hl, hr) bound = (hl, omega arith, omega arith)
  replace_node-IsShrunk k v w s h l (node k' v' w' s' h' l' r') (e, p, q, hl, hr) bound =
      successor-IsShrunk k v w s h k' v' w' s' h' l' r' l (node k' v' w' s' h' l' r')
        (pop_min k' v' w' s' h' l' r').0 (e, p, q, hl, hr) bound
        (pop_min-IsShrunk k' v' w' s' h' l' r' hr (omega arith))

module _ {ℓ κ} {K : Type ℓ} {V : Type κ} ⦃o : Ord K⦄ where
  -- Insertion into a balanced tree, of a height up to the limit, leaves it balanced, and its height the same or one more.
  pub insert-IsAvl :
      (t : Link K V) (key : K) (value : V) (weight : Measure)
      → IsAvl t
      → height t ≤ height_limit
      → IsGrown t (insert t key value weight).0
  unfolding insert
  insert-IsAvl empty key value weight avl bound =
      ((omega arith, omega arith, omega arith, tt, tt), omega arith, omega arith)
  insert-IsAvl (node k v w s h l r) key value weight (e, p, q, hl, hr) bound =
      let t = node k v w s h l r in
      elim (Ordering-cases (cmp key k)) [
        | inl c ↦ coe 1 0 (i. IsGrown t (insert-lt k v w s h l r key value weight c i).0) (
            IsGrown-left k v w s h k v w s h l r (insert l key value weight).0 (e, p, q, hl, hr)
              bound (insert-IsAvl l key value weight hl (omega arith)))
        | inr (inl c) ↦ coe 1 0 (i. IsGrown t (insert-gt k v w s h l r key value weight c i).0) (
            IsGrown-right k v w s h k v w s h l r (insert r key value weight).0 (e, p, q, hl, hr)
              bound (insert-IsAvl r key value weight hr (omega arith)))
        | inr (inr c) ↦ coe 1 0 (i. IsGrown t (insert-eq k v w s h l r key value weight c i).0) (
            IsGrown-right k v w s h k value weight s h l r r (e, p, q, hl, hr) bound
              (hr, omega arith, omega arith))
      ]

  -- Removal from a balanced tree, of a height up to the limit, leaves it balanced, and its height the same or one less.
  pub remove-IsAvl :
      (t : Link K V) (key : K) → IsAvl t → height t ≤ height_limit → IsShrunk t (remove t key).0
  unfolding remove
  remove-IsAvl empty key avl bound = (tt, omega arith, omega arith)
  remove-IsAvl (node k v w s h l r) key (e, p, q, hl, hr) bound =
      let t = node k v w s h l r in
      elim (Ordering-cases (cmp key k)) [
        | inl c ↦ coe 1 0 (i. IsShrunk t (remove-lt k v w s h l r key c i).0) (
            IsShrunk-left k v w s h k v w s h l r (remove l key).0 (e, p, q, hl, hr) bound
              (remove-IsAvl l key hl (omega arith)))
        | inr (inl c) ↦ coe 1 0 (i. IsShrunk t (remove-gt k v w s h l r key c i).0) (
            IsShrunk-right k v w s h k v w s h l r (remove r key).0 (e, p, q, hl, hr) bound
              (remove-IsAvl r key hr (omega arith)))
        | inr (inr c) ↦
            coe 1 0 (i. IsShrunk t (remove-eq k v w s h l r key c i).0)
              (replace_node-IsShrunk k v w s h l r (e, p, q, hl, hr) bound)
      ]

module _ {ℓ κ} {K : Type ℓ} {V : Type κ} where
  length-node :
      (k : K) (v : V) (w s : Measure) (h : ℕ) (l r : Link K V)
      → length (to_list (node k v w s h l r)) ≡ length (to_list l) + length (to_list r) + 1
  length-node k v w s h l r =
      ap length (to_list-node k v w s h l r)
      ∙ length-append (to_list l) ((k, v, w) ∷ to_list r)
      ∙ omega arith

  -- A balanced tree of height 2d, or more, has 2 ^ d - 1 entries or more.
  pub height-length :
      (t : Link K V) (d : ℕ) → IsAvl t → 2 * d ≤ height t → 2 ^ d ≤ length (to_list t) + 1
  height-length t zero avl h = omega arith
  height-length empty (suc d) avl h = absurd (omega arith)
  height-length (node k v w s h l r) (suc d) (e, p, q, hl, hr) deep =
      let a = height-length l d hl (omega arith) in
      let b = height-length r d hr (omega arith) in let c = length-node k v w s h l r in omega arith
