-- ===== src/IndexPages/Rank/Sums.antt =====
-- rank.rs: the stored sums of the subtrees are the totals of the weights of their entries.
use editchain.Prelude.{
  ℕ, ◌≤◌, ◌≡◌, refl, sym, ap, ap₂, ◌∙◌, true, false, List, [], ◌∷◌, ◌++◌, ltb, if◌then◌else◌, max,
  arith, saturating_add, max_64, inl, inr,
}
use editchain.Order.{Ord, cmp, Ordering-cases}
use editchain.IndexPages.Rank.Steps.{
  insert-lt, insert-gt, insert-eq, remove-lt, remove-gt, remove-eq,
}
use editchain.IndexPages.Sorted.{Entry}
use editchain.IndexPages.Rank.{
  Measure, no_measure, plus, Link, empty, node, height, measure, next_height, rotate_left,
  rotate_right, lean_left, lean_right, balance_node, balance, pop_min, with_children, replace_node,
  insert, remove,
}
use editchain.IndexPages.Rank.Contents.{to_list, to_list-lean_left, to_list-lean_right}

-- A measure that two 64-bit integers hold.
abbrev pub IsMeasure : Measure → Type 0
IsMeasure m = (m.expanded ≤ max_64) × (m.visible ≤ max_64)

saturating_add_assoc :
    (a b c : ℕ) → saturating_add (saturating_add a b) c ≡ saturating_add a (saturating_add b c)
saturating_add_assoc a b c = omega arith

pub plus_assoc : (a b c : Measure) → plus (plus a b) c ≡ plus a (plus b c)
plus_assoc a b c =
    ap₂ (λ x y. record { expanded = x; visible = y })
      (saturating_add_assoc a.expanded b.expanded c.expanded)
      (saturating_add_assoc a.visible b.visible c.visible)

pub plus-IsMeasure : (a b : Measure) → IsMeasure (plus a b)
plus-IsMeasure a b = (omega arith, omega arith)

pub plus-no_measure : (a : Measure) → IsMeasure a → plus a no_measure ≡ a
plus-no_measure a h = ap₂ (λ x y. record { expanded = x; visible = y }) (omega arith) (omega arith)

pub no_measure-plus : (a : Measure) → IsMeasure a → plus no_measure a ≡ a
no_measure-plus a h = ap₂ (λ x y. record { expanded = x; visible = y }) (omega arith) (omega arith)

module _ {ℓ κ} {K : Type ℓ} {V : Type κ} where
  -- The saturating sum of the weights of a list of entries.
  unfoldable pub total : List (Entry K V Measure) → Measure
  total [] = no_measure
  total ((k, v, w) ∷ rest) = plus w (total rest)

  pub total-IsMeasure : (xs : List (Entry K V Measure)) → IsMeasure (total xs)
  unfolding total
  total-IsMeasure [] = (omega arith, omega arith)
  total-IsMeasure ((k, v, w) ∷ rest) = plus-IsMeasure w (total rest)

  pub total-append :
      (xs ys : List (Entry K V Measure)) → total (xs ++ ys) ≡ plus (total xs) (total ys)
  unfolding total
  total-append [] ys = sym (no_measure-plus (total ys) (total-IsMeasure ys))
  total-append ((k, v, w) ∷ rest) ys =
      ap (plus w) (total-append rest ys) ∙ sym (plus_assoc w (total rest) (total ys))

  -- Every stored sum is the one that `fix` would compute.
  abbrev pub IsSummed : Link K V → Type 0
  IsSummed empty = Unit
  IsSummed (node k v w s h l r) =
      IsMeasure w × (s ≡ plus (plus (measure l) w) (measure r)) × IsSummed l × IsSummed r

  -- The sum stored at the root is the total of the weights, in a tree whose stored sums are right.
  pub measure_lem : (t : Link K V) → IsSummed t → measure t ≡ total (to_list t)
  unfolding total to_list
  measure_lem empty h = refl
  measure_lem (node k v w s h l r) (fits, sum, hl, hr) =
      sum
      ∙ ap₂ (λ a b. plus (plus a w) b) (measure_lem l hl) (measure_lem r hr)
      ∙ plus_assoc (total (to_list l)) w (total (to_list r))
      ∙ sym (total-append (to_list l) ((k, v, w) ∷ to_list r))

  rotate_left-IsSummed : (t : Link K V) → IsSummed t → IsSummed (rotate_left t)
  rotate_left-IsSummed empty h = tt
  rotate_left-IsSummed (node k v w s h l empty) x = x
  rotate_left-IsSummed (node k v w s h l (node k' v' w' s' h' l' r'))
        (fits, sum, hl, (fits', sum', hl', hr')) =
      (fits', refl, (fits, refl, hl, hl'), hr')

  rotate_right-IsSummed : (t : Link K V) → IsSummed t → IsSummed (rotate_right t)
  rotate_right-IsSummed empty h = tt
  rotate_right-IsSummed (node k v w s h empty r) x = x
  rotate_right-IsSummed (node k v w s h (node k' v' w' s' h' l' r') r)
        (fits, sum, (fits', sum', hl', hr'), hr) =
      (fits', refl, hl', (fits, refl, hr', hr))

  lean_left-IsSummed : (t : Link K V) → IsSummed t → IsSummed (lean_left t)
  lean_left-IsSummed empty x = x
  lean_left-IsSummed (node k v w s h l r) x =
      elim (ltb (height l) (height r))
        as (λ b. IsSummed (if b then rotate_left (node k v w s h l r) else node k v w s h l r)) [
          | true ↦ rotate_left-IsSummed (node k v w s h l r) x
          | false ↦ x
        ]

  lean_right-IsSummed : (t : Link K V) → IsSummed t → IsSummed (lean_right t)
  lean_right-IsSummed empty x = x
  lean_right-IsSummed (node k v w s h l r) x =
      elim (ltb (height r) (height l))
        as (λ b. IsSummed (if b then rotate_right (node k v w s h l r) else node k v w s h l r)) [
          | true ↦ rotate_right-IsSummed (node k v w s h l r) x
          | false ↦ x
        ]

  measure-lean_left : (t : Link K V) → IsSummed t → measure (lean_left t) ≡ measure t
  measure-lean_left t x =
      measure_lem (lean_left t) (lean_left-IsSummed t x)
      ∙ ap total (to_list-lean_left t)
      ∙ sym (measure_lem t x)

  measure-lean_right : (t : Link K V) → IsSummed t → measure (lean_right t) ≡ measure t
  measure-lean_right t x =
      measure_lem (lean_right t) (lean_right-IsSummed t x)
      ∙ ap total (to_list-lean_right t)
      ∙ sym (measure_lem t x)

  balance_node-IsSummed :
      (k : K) (v : V) (w s : Measure) (h : ℕ) (l r : Link K V)
      → IsSummed (node k v w s h l r)
      → IsSummed (balance_node k v w s h l r)
  unfolding balance_node
  balance_node-IsSummed k v w s h l r (fits, sum, hl, hr) =
      let t = node k v w s h l r in
      elim (ltb (next_height (height r)) (height l))
        as (λ b. IsSummed (
          if b
          then rotate_right (node k v w s h (lean_left l) r)
          else if ltb (next_height (height l)) (height r)
          then rotate_left (node k v w s h l (lean_right r))
          else t)) [
            | true ↦ rotate_right-IsSummed (node k v w s h (lean_left l) r) (
              fits,
              sum ∙ ap (λ m. plus (plus m w) (measure r)) (sym (measure-lean_left l hl)),
              lean_left-IsSummed l hl,
              hr,
            )
            | false ↦
                elim (ltb (next_height (height l)) (height r))
                  as (λ b.
                    IsSummed (if b then rotate_left (node k v w s h l (lean_right r)) else t)) [
                      | true ↦ rotate_left-IsSummed (node k v w s h l (lean_right r)) (
                        fits,
                        sum ∙ ap (λ m. plus (plus (measure l) w) m) (sym (measure-lean_right r hr)),
                        hl,
                        lean_right-IsSummed r hr,
                      )
                      | false ↦ (fits, sum, hl, hr)
                    ]
          ]

  -- `balance` makes the sum of its root anew: only the subtrees' need hold.
  pub balance-IsSummed :
      (k : K) (v : V) (w s : Measure) (h : ℕ) (l r : Link K V)
      → IsMeasure w
      → IsSummed l
      → IsSummed r
      → IsSummed (balance (node k v w s h l r))
  unfolding balance
  balance-IsSummed k v w s h l r fits hl hr =
      balance_node-IsSummed k v w (plus (plus (measure l) w) (measure r))
        (next_height (max (height l) (height r))) l r (fits, refl, hl, hr)

  pub pop_min-IsSummed :
      (k : K) (v : V) (w s : Measure) (h : ℕ) (l r a b : Link K V)
      → IsMeasure w
      → IsSummed l
      → IsSummed r
      → IsSummed a
      → IsSummed b
      → IsSummed (pop_min k v w s h l r).0
        × IsSummed (balance (with_children (pop_min k v w s h l r).1 a b))
  unfolding pop_min
  pop_min-IsSummed k v w s h empty r a b fits hl hr ha hb =
      (hr, balance-IsSummed k v w s h a b fits ha hb)
  pop_min-IsSummed k v w s h (node k' v' w' s' h' l' r') r a b fits (fits', sum', hl', hr') hr ha
        hb =
      let (rest, smallest) = pop_min-IsSummed k' v' w' s' h' l' r' a b fits' hl' hr' ha hb in
      (balance-IsSummed k v w s h (pop_min k' v' w' s' h' l' r').0 r fits rest hr, smallest)

  replace_node-IsSummed :
      (v : V) (l r : Link K V) → IsSummed l → IsSummed r → IsSummed (replace_node v l r).0
  unfolding replace_node
  replace_node-IsSummed v l empty hl hr = hl
  replace_node-IsSummed v l (node k' v' w' s' h' l' r') hl (fits', sum', hl', hr') =
      let (rest, _) = pop_min-IsSummed k' v' w' s' h' l' r' empty empty fits' hl' hr' tt tt in
      (pop_min-IsSummed k' v' w' s' h' l' r' l (pop_min k' v' w' s' h' l' r').0 fits' hl' hr' hl
        rest).1

module _ {ℓ κ} {K : Type ℓ} {V : Type κ} ⦃o : Ord K⦄ where
  insert_empty-IsSummed :
      (key : K) (value : V) (weight : Measure)
      → IsMeasure weight
      → IsSummed (insert empty key value weight).0
  unfolding insert
  insert_empty-IsSummed key value weight fits = (
    fits,
    sym (ap (λ m. plus m no_measure) (no_measure-plus weight fits) ∙ plus-no_measure weight fits),
    tt,
    tt,
  )

  -- Insertion keeps every stored sum right, where the new weight is a pair of 64-bit numbers.
  pub insert-IsSummed :
      (t : Link K V) (key : K) (value : V) (weight : Measure)
      → IsMeasure weight
      → IsSummed t
      → IsSummed (insert t key value weight).0
  insert-IsSummed empty key value weight fits hs = insert_empty-IsSummed key value weight fits
  insert-IsSummed (node k v w s h l r) key value weight fits (fits', sum, hl, hr) =
      elim (Ordering-cases (cmp key k)) [
        | inl e ↦ coe 1 0 (i. IsSummed (insert-lt k v w s h l r key value weight e i).0) (
            balance-IsSummed k v w s h (insert l key value weight).0 r fits'
              (insert-IsSummed l key value weight fits hl) hr)
        | inr (inl e) ↦ coe 1 0 (i. IsSummed (insert-gt k v w s h l r key value weight e i).0) (
            balance-IsSummed k v w s h l (insert r key value weight).0 fits' hl
              (insert-IsSummed r key value weight fits hr))
        | inr (inr e) ↦
            coe 1 0 (i. IsSummed (insert-eq k v w s h l r key value weight e i).0)
              (balance-IsSummed k value weight s h l r fits hl hr)
      ]

  -- Removal keeps every stored sum right.
  pub remove-IsSummed : (t : Link K V) (key : K) → IsSummed t → IsSummed (remove t key).0
  unfolding remove
  remove-IsSummed empty key hs = tt
  remove-IsSummed (node k v w s h l r) key (fits', sum, hl, hr) =
      elim (Ordering-cases (cmp key k)) [
        | inl e ↦
            coe 1 0 (i. IsSummed (remove-lt k v w s h l r key e i).0)
              (balance-IsSummed k v w s h (remove l key).0 r fits' (remove-IsSummed l key hl) hr)
        | inr (inl e) ↦
            coe 1 0 (i. IsSummed (remove-gt k v w s h l r key e i).0)
              (balance-IsSummed k v w s h l (remove r key).0 fits' hl (remove-IsSummed r key hr))
        | inr (inr e) ↦
            coe 1 0 (i. IsSummed (remove-eq k v w s h l r key e i).0)
              (replace_node-IsSummed v l r hl hr)
      ]
