-- ===== src/IndexPages/Rank/Contents.antt =====
-- rank.rs: what a tree contains, in order, and that its edits are those of a sorted list.
use editchain.Prelude.{
  ℕ, ◌≡◌, refl, sym, ap, ◌∙◌, true, false, some, List, [], ◌∷◌, ◌++◌, ltb, if◌then◌else◌, max,
  arith, append_assoc, append-nil, inl, inr,
}
use editchain.Order.{Ord, cmp, Ordering-cases}
use editchain.IndexPages.Sorted.{
  Entry, lookup, insert_entry, remove_entry, Below, Above, IsSorted, IsSorted-split,
  IsSorted-insert_entry, IsSorted-remove_entry, insert_entry-at, insert_entry-after,
  remove_entry-at, remove_entry-after, lookup-at, lookup-after, Below-eq, Below-trans, Above-trans,
  insert_entry-right, insert_entry-left, remove_entry-right, remove_entry-left, lookup-right,
  lookup-left,
}
use editchain.IndexPages.Rank.Steps.{
  insert-lt, insert-gt, insert-eq, remove-lt, remove-gt, remove-eq, get-lt, get-gt, get-eq,
}
use editchain.IndexPages.Rank.{
  Measure, Link, empty, node, height, measure, plus, next_height, rotate_left, rotate_right,
  lean_left, lean_right, balance_node, balance, pop_min, with_children, replace_node, insert,
  remove, get,
}

module _ {ℓ κ} {K : Type ℓ} {V : Type κ} where
  -- The entries in the order of the sequence.
  unfoldable pub to_list : Link K V → List (Entry K V Measure)
  to_list empty = []
  to_list (node k v w s h l r) = to_list l ++ ((k, v, w) ∷ to_list r)

  pub to_list-rotate_left : (t : Link K V) → to_list (rotate_left t) ≡ to_list t
  unfolding to_list
  to_list-rotate_left empty = refl
  to_list-rotate_left (node k v w s h l empty) = refl
  to_list-rotate_left (node k v w s h l (node k' v' w' s' h' l' r')) =
      append_assoc (to_list l) ((k, v, w) ∷ to_list l') ((k', v', w') ∷ to_list r')

  pub to_list-rotate_right : (t : Link K V) → to_list (rotate_right t) ≡ to_list t
  unfolding to_list
  to_list-rotate_right empty = refl
  to_list-rotate_right (node k v w s h empty r) = refl
  to_list-rotate_right (node k v w s h (node k' v' w' s' h' l' r') r) =
      sym (append_assoc (to_list l') ((k', v', w') ∷ to_list r') ((k, v, w) ∷ to_list r))

  pub to_list-lean_left : (t : Link K V) → to_list (lean_left t) ≡ to_list t
  to_list-lean_left empty = refl
  to_list-lean_left (node k v w s h l r) =
      elim (ltb (height l) (height r))
        as (λ b.
          to_list (if b then rotate_left (node k v w s h l r) else node k v w s h l r)
          ≡ to_list (node k v w s h l r)) [
            | true ↦ to_list-rotate_left (node k v w s h l r)
            | false ↦ refl
          ]

  pub to_list-lean_right : (t : Link K V) → to_list (lean_right t) ≡ to_list t
  to_list-lean_right empty = refl
  to_list-lean_right (node k v w s h l r) =
      elim (ltb (height r) (height l))
        as (λ b.
          to_list (if b then rotate_right (node k v w s h l r) else node k v w s h l r)
          ≡ to_list (node k v w s h l r)) [
            | true ↦ to_list-rotate_right (node k v w s h l r)
            | false ↦ refl
          ]

  pub to_list-node :
      (k : K) (v : V) (w s : Measure) (h : ℕ) (l r : Link K V)
      → to_list (node k v w s h l r) ≡ to_list l ++ ((k, v, w) ∷ to_list r)
  unfolding to_list
  to_list-node k v w s h l r = refl

  to_list-balance_node :
      (k : K) (v : V) (w s : Measure) (h : ℕ) (l r : Link K V)
      → to_list (balance_node k v w s h l r) ≡ to_list l ++ ((k, v, w) ∷ to_list r)
  unfolding balance_node
  to_list-balance_node k v w s h l r = ground (
    arith,
    to_list-rotate_right (node k v w s h (lean_left l) r),
    to_list-rotate_left (node k v w s h l (lean_right r)),
    to_list-node k v w s h l r,
    to_list-node k v w s h (lean_left l) r,
    to_list-node k v w s h l (lean_right r),
    to_list-lean_left l,
    to_list-lean_right r,
  )

  pub to_list-balance : (t : Link K V) → to_list (balance t) ≡ to_list t
  unfolding balance to_list
  to_list-balance empty = refl
  to_list-balance (node k v w s h l r) =
      to_list-balance_node k v w (plus (plus (measure l) w) (measure r))
        (next_height (max (height l) (height r))) l r

  -- The entry that `pop_min` takes off: the leftmost.
  abbrev first_entry : K → V → Measure → Link K V → Entry K V Measure
  first_entry k v w empty = (k, v, w)
  first_entry k v w (node k' v' w' s' h' l' r') = first_entry k' v' w' l'

  to_list-pop_min_0 :
      (k : K) (v : V) (w s : Measure) (h : ℕ) (l r : Link K V)
      → first_entry k v w l ∷ to_list (pop_min k v w s h l r).0
        ≡ to_list l ++ ((k, v, w) ∷ to_list r)
  unfolding pop_min to_list
  to_list-pop_min_0 k v w s h empty r = refl
  to_list-pop_min_0 k v w s h (node k' v' w' s' h' l' r') r = rw (
    to_list-balance (node k v w s h (pop_min k' v' w' s' h' l' r').0 r),
    ← to_list-pop_min_0 k' v' w' s' h' l' r',
  )

  to_list-pop_min_1 :
      (k : K) (v : V) (w s : Measure) (h : ℕ) (l r l' r' : Link K V)
      → to_list (with_children (pop_min k v w s h l r).1 l' r')
        ≡ to_list l' ++ (first_entry k v w l ∷ to_list r')
  unfolding pop_min to_list
  to_list-pop_min_1 k v w s h empty r a b = refl
  to_list-pop_min_1 k v w s h (node k' v' w' s' h' l' r') r a b =
      to_list-pop_min_1 k' v' w' s' h' l' r' a b

  to_list-replace_node :
      (v : V) (l r : Link K V) → to_list (replace_node v l r).0 ≡ to_list l ++ to_list r
  unfolding replace_node to_list
  to_list-replace_node v l empty = sym (append-nil (to_list l))
  to_list-replace_node v l (node k' v' w' s' h' l' r') =
      to_list-balance
        (with_children (pop_min k' v' w' s' h' l' r').1 l (pop_min k' v' w' s' h' l' r').0)
      ∙ to_list-pop_min_1 k' v' w' s' h' l' r' l (pop_min k' v' w' s' h' l' r').0
      ∙ ap (λ xs. to_list l ++ xs) (to_list-pop_min_0 k' v' w' s' h' l' r')

module _ {ℓ κ} {K : Type ℓ} {V : Type κ} ⦃o : Ord K⦄ where
  pub IsSorted-node :
      (k : K) (v : V) (w s : Measure) (h : ℕ) (l r : Link K V)
      → IsSorted (to_list (node k v w s h l r))
      → IsSorted (to_list l) × Below k (to_list l) × Above k (to_list r) × IsSorted (to_list r)
  unfolding to_list
  IsSorted-node k v w s h l r = IsSorted-split (to_list l) k v w (to_list r)

  abbrev pub no_tree : Link K V
  no_tree = empty

  to_list-insert_empty :
      (key : K) (value : V) (weight : Measure)
      → to_list (insert no_tree key value weight).0
        ≡ insert_entry (to_list no_tree) key value weight
  unfolding insert to_list insert_entry
  to_list-insert_empty key value weight = refl

  -- The contents of the tree after an insertion are those of the sorted list after the same insertion.
  pub to_list-insert :
      (t : Link K V) (key : K) (value : V) (weight : Measure)
      → IsSorted (to_list t)
      → to_list (insert t key value weight).0 ≡ insert_entry (to_list t) key value weight
  to_list-insert empty key value weight h = to_list-insert_empty key value weight
  to_list-insert (node k v w s h' l r) key value weight h =
      let (sl, below, above, sr) = IsSorted-node k v w s h' l r h in
      elim (Ordering-cases (cmp key k)) [
        | inl e ↦ rw (
          insert-lt k v w s h' l r key value weight e,
          to_list-balance (node k v w s h' (insert l key value weight).0 r),
          to_list-node k v w s h' (insert l key value weight).0 r,
          to_list-node k v w s h' l r,
          insert_entry-left (to_list l) k v w (to_list r) key value weight e,
          to_list-insert l key value weight sl,
        )
        | inr (inl e) ↦ rw (
          insert-gt k v w s h' l r key value weight e,
          to_list-balance (node k v w s h' l (insert r key value weight).0),
          to_list-node k v w s h' l (insert r key value weight).0,
          to_list-node k v w s h' l r,
          insert_entry-right (to_list l) ((k, v, w) ∷ to_list r) key value weight
              (Below-trans k key (to_list l) below (o.cmp-gt key k e)),
          insert_entry-after k v w (to_list r) key value weight e,
          to_list-insert r key value weight sr,
        )
        | inr (inr e) ↦ rw (
          insert-eq k v w s h' l r key value weight e,
          to_list-balance (node k value weight s h' l r),
          to_list-node k value weight s h' l r,
          to_list-node k v w s h' l r,
          insert_entry-right (to_list l) ((k, v, w) ∷ to_list r) key value weight
              (Below-eq key k (to_list l) e below),
          insert_entry-at k v w (to_list r) key value weight e,
        )
      ]

  to_list-remove_empty :
      (key : K) → to_list (remove no_tree key).0 ≡ remove_entry (to_list no_tree) key
  unfolding remove to_list remove_entry
  to_list-remove_empty key = refl

  pub to_list-remove :
      (t : Link K V) (key : K)
      → IsSorted (to_list t)
      → to_list (remove t key).0 ≡ remove_entry (to_list t) key
  to_list-remove empty key h = to_list-remove_empty key
  to_list-remove (node k v w s h' l r) key h =
      let (sl, below, above, sr) = IsSorted-node k v w s h' l r h in
      elim (Ordering-cases (cmp key k)) [
        | inl e ↦ rw (
          remove-lt k v w s h' l r key e,
          to_list-balance (node k v w s h' (remove l key).0 r),
          to_list-node k v w s h' (remove l key).0 r,
          to_list-node k v w s h' l r,
          remove_entry-left (to_list l) ((k, v, w) ∷ to_list r) key
              (e, Above-trans key k (to_list r) e above),
          to_list-remove l key sl,
        )
        | inr (inl e) ↦ rw (
          remove-gt k v w s h' l r key e,
          to_list-balance (node k v w s h' l (remove r key).0),
          to_list-node k v w s h' l (remove r key).0,
          to_list-node k v w s h' l r,
          remove_entry-right (to_list l) ((k, v, w) ∷ to_list r) key
              (Below-trans k key (to_list l) below (o.cmp-gt key k e)),
          remove_entry-after k v w (to_list r) key e,
          to_list-remove r key sr,
        )
        | inr (inr e) ↦ rw (
          remove-eq k v w s h' l r key e,
          to_list-replace_node v l r,
          to_list-node k v w s h' l r,
          remove_entry-right (to_list l) ((k, v, w) ∷ to_list r) key
              (Below-eq key k (to_list l) e below),
          remove_entry-at k v w (to_list r) key e,
        )
      ]

  get_empty : (key : K) → get no_tree key ≡ lookup (to_list no_tree) key
  unfolding get to_list lookup
  get_empty key = refl

  -- What `get` finds is what the list of entries has under the key, in a tree whose keys increase.
  pub get_lem : (t : Link K V) (key : K) → IsSorted (to_list t) → get t key ≡ lookup (to_list t) key
  get_lem empty key h = get_empty key
  get_lem (node k v w s h' l r) key h =
      let (sl, below, above, sr) = IsSorted-node k v w s h' l r h in
      elim (Ordering-cases (cmp key k)) [
        | inl e ↦ rw (
          get-lt k v w s h' l r key e,
          to_list-node k v w s h' l r,
          lookup-left (to_list l) ((k, v, w) ∷ to_list r) key
              (e, Above-trans key k (to_list r) e above),
          get_lem l key sl,
        )
        | inr (inl e) ↦ rw (
          get-gt k v w s h' l r key e,
          to_list-node k v w s h' l r,
          lookup-right (to_list l) ((k, v, w) ∷ to_list r) key
              (Below-trans k key (to_list l) below (o.cmp-gt key k e)),
          lookup-after k v w (to_list r) key e,
          get_lem r key sr,
        )
        | inr (inr e) ↦ rw (
          get-eq k v w s h' l r key e,
          to_list-node k v w s h' l r,
          lookup-right (to_list l) ((k, v, w) ∷ to_list r) key (Below-eq key k (to_list l) e below),
          lookup-at k v w (to_list r) key e,
        )
      ]

  -- The value that an edit replaces or takes away is the one that `get` finds.
  insert-get :
      (t : Link K V) (key : K) (value : V) (weight : Measure)
      → (insert t key value weight).1 ≡ get t key
  unfolding insert get
  insert-get empty key value weight = refl
  insert-get (node k v w s h l r) key value weight =
      ground (arith, insert-get l key value weight, insert-get r key value weight)

  replace_node-value : (v : V) (l r : Link K V) → (replace_node v l r).1 ≡ some v
  unfolding replace_node
  replace_node-value v l empty = refl
  replace_node-value v l (node k' v' w' s' h' l' r') = refl

  remove-get : (t : Link K V) (key : K) → (remove t key).1 ≡ get t key
  unfolding remove get
  remove-get empty key = refl
  remove-get (node k v w s h l r) key =
      ground (arith, replace_node-value v l r, remove-get l key, remove-get r key)

  -- Insertion into a tree whose keys increase: the entries become those of the sorted list after the same insertion,
  -- the keys still increase, and the value returned is the one the list had under the key.
  pub insert_lem :
      (t : Link K V) (key : K) (value : V) (weight : Measure)
      → IsSorted (to_list t)
      → (to_list (insert t key value weight).0 ≡ insert_entry (to_list t) key value weight)
        × IsSorted (to_list (insert t key value weight).0)
        × ((insert t key value weight).1 ≡ lookup (to_list t) key)
  insert_lem t key value weight h = (
    to_list-insert t key value weight h,
    coe 1 0 (i. IsSorted (to_list-insert t key value weight h i))
        (IsSorted-insert_entry (to_list t) key value weight h),
    insert-get t key value weight ∙ get_lem t key h,
  )

  -- Removal from a tree whose keys increase: the entries become those of the sorted list after the same removal, the
  -- keys still increase, and the value returned is the one the list had under the key.
  pub remove_lem :
      (t : Link K V) (key : K)
      → IsSorted (to_list t)
      → (to_list (remove t key).0 ≡ remove_entry (to_list t) key)
        × IsSorted (to_list (remove t key).0)
        × ((remove t key).1 ≡ lookup (to_list t) key)
  remove_lem t key h = (
    to_list-remove t key h,
    coe 1 0 (i. IsSorted (to_list-remove t key h i)) (IsSorted-remove_entry (to_list t) key h),
    remove-get t key ∙ get_lem t key h,
  )
