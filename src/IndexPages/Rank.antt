-- ===== src/IndexPages/Rank.antt =====
-- crates/editchain-index-pages/src/rank.rs: an AVL tree whose nodes carry the weights of their subtrees
-- in two coordinate spaces.
use Prim.Native.Nat.{Ordering}
pub mod Steps
pub mod Contents
pub mod Sums
pub mod Height
pub mod Balance
pub mod Queries
pub mod Select
pub mod Bound
pub mod Prefixes
pub mod Traversal
pub mod Mutation
pub mod Edits
use editchain.Prelude.{
  ℕ, suc, ◌+◌, ◌-◌, ◌^◌, ◌≡◌, Bool, true, false, Option, none, some, List, [], ◌∷◌, ◌++◌, ltb,
  if◌then◌else◌, max, min, saturating_add,
}
use editchain.Order.{Ord, cmp}

pub record Measure : Type 0 where
  pub expanded : ℕ
  pub visible : ℕ

pub data Axis : Type 0 where
  expanded visible : Axis

abbrev pub no_measure : Measure
no_measure = record { expanded = 0; visible = 0 }

-- `Measure::plus`, field by field and saturating.
abbrev pub plus : Measure → Measure → Measure
plus a b = record {
  expanded = saturating_add a.expanded b.expanded;
  visible = saturating_add a.visible b.visible;
}

abbrev pub along : Measure → Axis → ℕ
along m Axis.expanded = m.expanded
along m Axis.visible = m.visible

-- `a.saturating_add(1)` at 32 bits.
abbrev pub next_height : ℕ → ℕ
next_height a = min (a + 1) (2 ^ 32 - 1)

-- `Link<K, V>`: a page with a node, or nothing. The fields are those of `Node`, in its order.
pub data Link {ℓ κ} (K : Type ℓ) (V : Type κ) : Type (ℓ ⊔ κ) where
  empty : Link K V
  node : K → V → Measure → Measure → ℕ → Link K V → Link K V → Link K V

module _ {ℓ κ} {K : Type ℓ} {V : Type κ} where
  abbrev pub height : Link K V → ℕ
  height empty = 0
  height (node key value weight sum h left right) = h

  abbrev pub measure : Link K V → Measure
  measure empty = no_measure
  measure (node key value weight sum h left right) = sum

  -- A node with the height and the sum that `fix` computes.
  abbrev pub fixed : K → V → Measure → Link K V → Link K V → Link K V
  fixed key value weight left right =
      node key value weight (plus (plus (measure left) weight) (measure right))
        (next_height (max (height left) (height right))) left right

  abbrev pub fix : Link K V → Link K V
  fix empty = empty
  fix (node key value weight sum h left right) = fixed key value weight left right

  -- `left(root)`: the right child becomes the root.
  abbrev pub rotate_left : Link K V → Link K V
  rotate_left (node key value weight sum h left (node key' value' weight' sum' h' left' right')) =
      fixed key' value' weight' (fixed key value weight left left') right'
  rotate_left root = root

  -- `right(root)`: the left child becomes the root.
  abbrev pub rotate_right : Link K V → Link K V
  rotate_right (node key value weight sum h (node key' value' weight' sum' h' left' right') right) =
      fixed key' value' weight' left' (fixed key value weight right' right)
  rotate_right root = root

  -- The rotations of a child by which `balance` prepares its own.
  abbrev pub lean_left : Link K V → Link K V
  lean_left empty = empty
  lean_left (node key value weight sum h left right) =
      if ltb (height left) (height right)
      then rotate_left (node key value weight sum h left right)
      else node key value weight sum h left right

  abbrev pub lean_right : Link K V → Link K V
  lean_right empty = empty
  lean_right (node key value weight sum h left right) =
      if ltb (height right) (height left)
      then rotate_right (node key value weight sum h left right)
      else node key value weight sum h left right

  unfoldable pub balance_node : K → V → Measure → Measure → ℕ → Link K V → Link K V → Link K V
  balance_node key value weight sum h left right =
      if ltb (next_height (height right)) (height left)
      then rotate_right (node key value weight sum h (lean_left left) right)
      else if ltb (next_height (height left)) (height right)
      then rotate_left (node key value weight sum h left (lean_right right))
      else node key value weight sum h left right

  unfoldable pub balance : Link K V → Link K V
  unfolding balance_node
  balance empty = empty
  balance (node key value weight sum h left right) =
      balance_node key value weight (plus (plus (measure left) weight) (measure right))
        (next_height (max (height left) (height right))) left right

  -- The tree without its first node, and that node, alone.
  unfoldable pub pop_min : K → V → Measure → Measure → ℕ → Link K V → Link K V → Link K V × Link K V
  pop_min key value weight sum h empty right = (right, node key value weight sum h empty empty)
  pop_min key value weight sum h (node key' value' weight' sum' h' left' right') right =
      let (child, smallest) = pop_min key' value' weight' sum' h' left' right' in
      (balance (node key value weight sum h child right), smallest)

  abbrev pub with_children : Link K V → Link K V → Link K V → Link K V
  with_children empty left right = empty
  with_children (node key value weight sum h left' right') left right =
      node key value weight sum h left right

  -- The part of `remove` for the node that is removed.
  unfoldable pub replace_node : V → Link K V → Link K V → Link K V × Option V
  replace_node value left empty = (left, some value)
  replace_node value left (node key weight' w s h l r) =
      let (child, successor) = pop_min key weight' w s h l r in
      (balance (with_children successor left child), some value)

module _ {ℓ κ} {K : Type ℓ} {V : Type κ} ⦃o : Ord K⦄ where
  unfoldable pub insert : Link K V → K → V → Measure → Link K V × Option V
  insert empty key value weight = (node key value weight weight 1 empty empty, none)
  insert (node k v w s h left right) key value weight = elim (cmp key k) [
    | Ordering.lt ↦
        let (child, previous) = insert left key value weight in
        (balance (node k v w s h child right), previous)
    | Ordering.gt ↦
        let (child, previous) = insert right key value weight in
        (balance (node k v w s h left child), previous)
    | Ordering.eq ↦ (balance (node k value weight s h left right), some v)
  ]

  unfoldable pub remove : Link K V → K → Link K V × Option V
  remove empty key = (empty, none)
  remove (node k v w s h left right) key = elim (cmp key k) [
    | Ordering.lt ↦
        let (child, previous) = remove left key in (balance (node k v w s h child right), previous)
    | Ordering.gt ↦
        let (child, previous) = remove right key in (balance (node k v w s h left child), previous)
    | Ordering.eq ↦ replace_node v left right
  ]

  unfoldable pub get : Link K V → K → Option V
  get empty key = none
  get (node k v w s h left right) key = elim (cmp key k) [
    | Ordering.lt ↦ get left key
    | Ordering.gt ↦ get right key
    | Ordering.eq ↦ some v
  ]

  -- The loop of `rank`, over its `sum` and `next`.
  unfoldable pub rank_from : Link K V → Measure → K → Option Measure
  rank_from empty sum key = none
  rank_from (node k v w s h left right) sum key = elim (cmp key k) [
    | Ordering.lt ↦ rank_from left sum key
    | Ordering.gt ↦ rank_from right (plus (plus sum (measure left)) w) key
    | Ordering.eq ↦ some (plus sum (measure left))
  ]

  unfoldable pub rank : Link K V → K → Option Measure
  unfolding rank_from
  rank root key = rank_from root no_measure key

  unfoldable pub prefix_from : Link K V → Measure → K → Measure
  prefix_from empty sum key = sum
  prefix_from (node k v w s h left right) sum key = elim (cmp key k) [
    | Ordering.gt ↦ prefix_from right (plus (plus sum (measure left)) w) key
    | _ ↦ prefix_from left sum key
  ]

  unfoldable pub prefix : Link K V → K → Measure
  unfolding prefix_from
  prefix root key = prefix_from root no_measure key

module _ {ℓ κ} {K : Type ℓ} {V : Type κ} where
  unfoldable pub select_from : Link K V → Measure → ℕ → Axis → Option (K × V × Measure)
  select_from empty sum offset axis = none
  select_from (node k v w s h left right) sum offset axis =
      let start = plus sum (measure left) in
      let in_left = select_from left sum offset axis in
      let in_right = select_from right (plus start w) offset axis in
      if ltb offset (along start axis)
      then in_left
      else if ltb offset (along (plus start w) axis)
      then some (k, v, start)
      else in_right

  unfoldable pub select : Link K V → ℕ → Axis → Option (K × V × Measure)
  unfolding select_from
  select root offset axis = select_from root no_measure offset axis
