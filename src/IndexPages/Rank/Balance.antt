-- ===== src/IndexPages/Rank/Balance.antt =====
-- rank.rs: the AVL invariant, and what `balance` makes of a node whose children differ by two.
use editchain.Prelude.{
  ℕ, ◌+◌, ◌-◌, ◌^◌, ◌≤◌, ◌<◌, ◌≡◌, ltb_cases, ltb-true, ltb-false, ◌⊎◌, inl, inr, max, arith,
}
use editchain.IndexPages.Rank.{
  Measure, plus, measure, Link, empty, node, height, next_height, fixed, rotate_left, rotate_right,
  lean_left, lean_right, balance_node, balance,
}

-- One below what a 32-bit height holds: two more levels fit.
abbrev pub height_limit : ℕ
height_limit = 2 ^ 32 - 3

module _ {ℓ κ} {K : Type ℓ} {V : Type κ} where
  -- The stored heights are the heights, and those of two children differ by one at most.
  abbrev pub IsAvl : Link K V → Type 0
  IsAvl empty = Unit
  IsAvl (node k v w s h l r) =
      (h ≡ max (height l) (height r) + 1)
      × (height l ≤ height r + 1)
      × (height r ≤ height l + 1)
      × IsAvl l
      × IsAvl r

  -- A balanced tree of one of two heights.
  abbrev pub IsAvlOf : ℕ → Link K V → Type 0
  IsAvlOf n t = IsAvl t × (n ≤ height t) × (height t ≤ n + 1)

  lean_left-steep :
      (k : K) (v : V) (w s : Measure) (h : ℕ) (l r : Link K V)
      → height l < height r
      → lean_left (node k v w s h l r) ≡ rotate_left (node k v w s h l r)
  lean_left-steep k v w s h l r e = rw (ltb-true (height l) (height r) e)

  lean_left-flat :
      (k : K) (v : V) (w s : Measure) (h : ℕ) (l r : Link K V)
      → height r ≤ height l
      → lean_left (node k v w s h l r) ≡ node k v w s h l r
  lean_left-flat k v w s h l r e = rw (ltb-false (height l) (height r) e)

  lean_right-steep :
      (k : K) (v : V) (w s : Measure) (h : ℕ) (l r : Link K V)
      → height r < height l
      → lean_right (node k v w s h l r) ≡ rotate_right (node k v w s h l r)
  lean_right-steep k v w s h l r e = rw (ltb-true (height r) (height l) e)

  lean_right-flat :
      (k : K) (v : V) (w s : Measure) (h : ℕ) (l r : Link K V)
      → height l ≤ height r
      → lean_right (node k v w s h l r) ≡ node k v w s h l r
  lean_right-flat k v w s h l r e = rw (ltb-false (height r) (height l) e)

  fixed-IsAvl :
      (k : K) (v : V) (w : Measure) (l r : Link K V)
      → IsAvl l
      → IsAvl r
      → height l ≤ height r + 1
      → height r ≤ height l + 1
      → max (height l) (height r) + 1 < 2 ^ 32
      → IsAvl (fixed k v w l r)
  fixed-IsAvl k v w l r hl hr a b bound = (omega arith, a, b, hl, hr)

  -- The double rotation, by its three nodes.
  double_left :
      (k : K) (v : V) (w s : Measure) (h : ℕ) (k' : K) (v' : V) (w' s' : Measure) (h' : ℕ)
      (l lr r : Link K V)
      → IsAvl l
      → IsAvl lr
      → IsAvl r
      → height l + 1 ≡ height lr
      → height lr ≡ height r + 1
      → height r < height_limit
      → IsAvlOf
          (height r + 2)
          (rotate_right (node k v w s h (rotate_left (node k' v' w' s' h' l lr)) r))
  double_left k v w s h k' v' w' s' h' l empty r hl hlr hr a b bound = absurd (omega arith)
  double_left k v w s h k' v' w' s' h' l (node k'' v'' w'' s'' h'' x y) r hl (e, p, q, hx, hy) hr a
        b bound =
      (
        (
          omega arith,
          omega arith,
          omega arith,
          fixed-IsAvl k' v' w' l x hl hx (omega arith) (omega arith) (omega arith),
          fixed-IsAvl k v w y r hy hr (omega arith) (omega arith) (omega arith),
        ),
        omega arith,
        omega arith,
      )

  single_left :
      (k : K) (v : V) (w s : Measure) (h : ℕ) (k' : K) (v' : V) (w' s' : Measure) (h' : ℕ)
      (l lr r : Link K V)
      → IsAvl l
      → IsAvl lr
      → IsAvl r
      → height lr ≤ height l
      → height l ≤ height lr + 1
      → height l ≡ height r + 1
      → height r < height_limit
      → IsAvlOf (height r + 2) (rotate_right (node k v w s h (node k' v' w' s' h' l lr) r))
  single_left k v w s h k' v' w' s' h' l lr r hl hlr hr a b c bound = (
    (
      omega arith,
      omega arith,
      omega arith,
      hl,
      fixed-IsAvl k v w lr r hlr hr (omega arith) (omega arith) (omega arith),
    ),
    omega arith,
    omega arith,
  )

  -- A left child two levels higher.
  tall_left :
      (k : K) (v : V) (w s : Measure) (h : ℕ) (l r : Link K V)
      → IsAvl l
      → IsAvl r
      → height l ≡ height r + 2
      → height r < height_limit
      → IsAvlOf (height r + 2) (rotate_right (node k v w s h (lean_left l) r))
  tall_left k v w s h empty r hl hr tall bound = absurd (omega arith)
  tall_left k v w s h (node k' v' w' s' h' l lr) r (e, p, q, hl, hlr) hr tall bound =
      elim (ltb_cases (height l) (height lr)) [
        | inl steep ↦
            coe 1 0
              (i.
                IsAvlOf (height r + 2)
                  (rotate_right (node k v w s h (lean_left-steep k' v' w' s' h' l lr steep i) r)))
              (double_left k v w s h k' v' w' s' h' l lr r hl hlr hr (omega arith) (omega arith)
                bound)
        | inr flat ↦
            coe 1 0
              (i.
                IsAvlOf (height r + 2)
                  (rotate_right (node k v w s h (lean_left-flat k' v' w' s' h' l lr flat i) r)))
              (single_left k v w s h k' v' w' s' h' l lr r hl hlr hr flat (omega arith)
                (omega arith) bound)
      ]

  double_right :
      (k : K) (v : V) (w s : Measure) (h : ℕ) (k' : K) (v' : V) (w' s' : Measure) (h' : ℕ)
      (l rl r : Link K V)
      → IsAvl l
      → IsAvl rl
      → IsAvl r
      → height r + 1 ≡ height rl
      → height rl ≡ height l + 1
      → height l < height_limit
      → IsAvlOf
          (height l + 2)
          (rotate_left (node k v w s h l (rotate_right (node k' v' w' s' h' rl r))))
  double_right k v w s h k' v' w' s' h' l empty r hl hrl hr a b bound = absurd (omega arith)
  double_right k v w s h k' v' w' s' h' l (node k'' v'' w'' s'' h'' x y) r hl (e, p, q, hx, hy) hr a
        b bound =
      (
        (
          omega arith,
          omega arith,
          omega arith,
          fixed-IsAvl k v w l x hl hx (omega arith) (omega arith) (omega arith),
          fixed-IsAvl k' v' w' y r hy hr (omega arith) (omega arith) (omega arith),
        ),
        omega arith,
        omega arith,
      )

  single_right :
      (k : K) (v : V) (w s : Measure) (h : ℕ) (k' : K) (v' : V) (w' s' : Measure) (h' : ℕ)
      (l rl r : Link K V)
      → IsAvl l
      → IsAvl rl
      → IsAvl r
      → height rl ≤ height r
      → height r ≤ height rl + 1
      → height r ≡ height l + 1
      → height l < height_limit
      → IsAvlOf (height l + 2) (rotate_left (node k v w s h l (node k' v' w' s' h' rl r)))
  single_right k v w s h k' v' w' s' h' l rl r hl hrl hr a b c bound = (
    (
      omega arith,
      omega arith,
      omega arith,
      fixed-IsAvl k v w l rl hl hrl (omega arith) (omega arith) (omega arith),
      hr,
    ),
    omega arith,
    omega arith,
  )

  tall_right :
      (k : K) (v : V) (w s : Measure) (h : ℕ) (l r : Link K V)
      → IsAvl l
      → IsAvl r
      → height r ≡ height l + 2
      → height l < height_limit
      → IsAvlOf (height l + 2) (rotate_left (node k v w s h l (lean_right r)))
  tall_right k v w s h l empty hl hr tall bound = absurd (omega arith)
  tall_right k v w s h l (node k' v' w' s' h' rl r) hl (e, p, q, hrl, hr) tall bound =
      elim (ltb_cases (height r) (height rl)) [
        | inl steep ↦
            coe 1 0
              (i.
                IsAvlOf (height l + 2)
                  (rotate_left (node k v w s h l (lean_right-steep k' v' w' s' h' rl r steep i))))
              (double_right k v w s h k' v' w' s' h' l rl r hl hrl hr (omega arith) (omega arith)
                bound)
        | inr flat ↦
            coe 1 0
              (i.
                IsAvlOf (height l + 2)
                  (rotate_left (node k v w s h l (lean_right-flat k' v' w' s' h' rl r flat i))))
              (single_right k v w s h k' v' w' s' h' l rl r hl hrl hr flat (omega arith)
                (omega arith) bound)
      ]

  balance_node-tall_left :
      (k : K) (v : V) (w s : Measure) (h : ℕ) (l r : Link K V)
      → next_height (height r) < height l
      → balance_node k v w s h l r ≡ rotate_right (node k v w s h (lean_left l) r)
  unfolding balance_node
  balance_node-tall_left k v w s h l r e =
      rw (ltb-true (next_height (height r)) (height l) e, balance_node)

  balance_node-tall_right :
      (k : K) (v : V) (w s : Measure) (h : ℕ) (l r : Link K V)
      → height l ≤ next_height (height r)
      → next_height (height l) < height r
      → balance_node k v w s h l r ≡ rotate_left (node k v w s h l (lean_right r))
  unfolding balance_node
  balance_node-tall_right k v w s h l r a e = rw (
    ltb-false (next_height (height r)) (height l) a,
    ltb-true (next_height (height l)) (height r) e,
    balance_node,
  )

  balance_node-level :
      (k : K) (v : V) (w s : Measure) (h : ℕ) (l r : Link K V)
      → height l ≤ next_height (height r)
      → height r ≤ next_height (height l)
      → balance_node k v w s h l r ≡ node k v w s h l r
  unfolding balance_node
  balance_node-level k v w s h l r a b = rw (
    ltb-false (next_height (height r)) (height l) a,
    ltb-false (next_height (height l)) (height r) b,
    balance_node,
  )

  -- What `balance` makes of two balanced children: a balanced tree, as high as the higher child or one more, and one
  -- more where they differ by one at most.
  abbrev pub IsBalanced : Link K V → Link K V → Link K V → Type 0
  IsBalanced l r t =
      IsAvl t
      × (max (height l) (height r) ≤ height t)
      × (height t ≤ max (height l) (height r) + 1)
      × ((height t ≡ max (height l) (height r) + 1)
          ⊎ ((height r + 2 ≤ height l) ⊎ (height l + 2 ≤ height r)))

  pub balance-IsBalanced :
      (k : K) (v : V) (w s : Measure) (h : ℕ) (l r : Link K V)
      → IsAvl l
      → IsAvl r
      → height l ≤ height r + 2
      → height r ≤ height l + 2
      → max (height l) (height r) ≤ height_limit
      → IsBalanced l r (balance (node k v w s h l r))
  unfolding balance
  balance-IsBalanced k v w s h l r hl hr a b bound =
      let s' = plus (plus (measure l) w) (measure r) in
      let h' = next_height (max (height l) (height r)) in
      elim (ltb_cases (next_height (height r)) (height l)) [
        | inl e ↦
            let (avl, low, high) = tall_left k v w s' h' l r hl hr (omega arith) (omega arith) in
            coe 1 0 (i. IsBalanced l r (balance_node-tall_left k v w s' h' l r e i))
              (avl, omega arith, omega arith, inr (inl (omega arith)))
        | inr e ↦ elim (ltb_cases (next_height (height l)) (height r)) [
          | inl f ↦
              let (avl, low, high) = tall_right k v w s' h' l r hl hr (omega arith) (omega arith) in
              coe 1 0 (i. IsBalanced l r (balance_node-tall_right k v w s' h' l r e f i))
                (avl, omega arith, omega arith, inr (inr (omega arith)))
          | inr f ↦ coe 1 0 (i. IsBalanced l r (balance_node-level k v w s' h' l r e f i)) (
            (omega arith, omega arith, omega arith, hl, hr),
            omega arith,
            omega arith,
            inl (omega arith),
          )
        ]
      ]
