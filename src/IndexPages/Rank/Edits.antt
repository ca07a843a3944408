-- ===== src/IndexPages/Rank/Edits.antt =====
-- rank.rs: a tree after any sequence of insertions and removals.
use editchain.Prelude.{ℕ, ◌*◌, ◌^◌, ◌+◌, ◌≤◌, ◌≡◌, refl, ap, ◌∙◌, List, [], ◌∷◌, arith, All, length}
use editchain.Order.{Ord}
use editchain.IndexPages.Sorted.{Entry, insert_entry, remove_entry, IsSorted}
use editchain.IndexPages.Rank.{Measure, Link, empty, height, insert, remove}
use editchain.IndexPages.Rank.Contents.{to_list, insert_lem, remove_lem}
use editchain.IndexPages.Rank.Sums.{IsMeasure, IsSummed, insert-IsSummed, remove-IsSummed}
use editchain.IndexPages.Rank.Balance.{IsAvl, height_limit}
use editchain.IndexPages.Rank.Height.{insert-IsAvl, remove-IsAvl, height-length}

-- A call that changes a tree.
pub data Edit {ℓ κ} (K : Type ℓ) (V : Type κ) : Type (ℓ ⊔ κ) where
  insertion : K → V → Measure → Edit K V
  removal : K → Edit K V

module _ {ℓ κ} {K : Type ℓ} {V : Type κ} where
  -- The weights that come in are 64-bit numbers.
  abbrev pub IsWeighed : Edit K V → Type 0
  IsWeighed (Edit.insertion key value weight) = IsMeasure weight
  IsWeighed (Edit.removal key) = Unit

module _ {ℓ κ} {K : Type ℓ} {V : Type κ} ⦃o : Ord K⦄ where
  abbrev pub edit : Edit K V → Link K V → Link K V
  edit (Edit.insertion key value weight) t = (insert t key value weight).0
  edit (Edit.removal key) t = (remove t key).0

  unfoldable pub run : List (Edit K V) → Link K V → Link K V
  run [] t = t
  run (e ∷ rest) t = run rest (edit e t)

  -- The same call on the list of entries.
  abbrev pub edit_entries : Edit K V → List (Entry K V Measure) → List (Entry K V Measure)
  edit_entries (Edit.insertion key value weight) xs = insert_entry xs key value weight
  edit_entries (Edit.removal key) xs = remove_entry xs key

  unfoldable pub run_entries : List (Edit K V) → List (Entry K V Measure) → List (Entry K V Measure)
  run_entries [] xs = xs
  run_entries (e ∷ rest) xs = run_entries rest (edit_entries e xs)

  -- The keys increase, the stored sums are right, and the tree is balanced.
  abbrev pub IsTree : Link K V → Type 0
  IsTree t = IsSorted (to_list t) × IsSummed t × IsAvl t

  edit-IsTree :
      (e : Edit K V) (t : Link K V)
      → IsWeighed e
      → IsTree t
      → height t ≤ height_limit
      → (to_list (edit e t) ≡ edit_entries e (to_list t))
        × IsTree (edit e t)
        × (height (edit e t) ≤ height t + 1)
  edit-IsTree (Edit.insertion key value weight) t fits (sorted, summed, avl) bound =
      let (same, sorted', found) = insert_lem t key value weight sorted in
      let (avl', low, high) = insert-IsAvl t key value weight avl bound in
      (same, (sorted', insert-IsSummed t key value weight fits summed, avl'), high)
  edit-IsTree (Edit.removal key) t fits (sorted, summed, avl) bound =
      let (same, sorted', found) = remove_lem t key sorted in
      let (avl', low, high) = remove-IsAvl t key avl bound in
      (same, (sorted', remove-IsSummed t key summed, avl'), omega arith)

  run-IsTree :
      (edits : List (Edit K V)) (t : Link K V)
      → All IsWeighed edits
      → IsTree t
      → height t + length edits ≤ height_limit
      → (to_list (run edits t) ≡ run_entries edits (to_list t)) × IsTree (run edits t)
  unfolding run run_entries
  run-IsTree [] t w h bound = (refl, h)
  run-IsTree (e ∷ rest) t w h bound =
      let (same, tree, high) = edit-IsTree e t w.0 h (omega arith) in
      let (all_same, all_tree) = run-IsTree rest (edit e t) w.1 tree (omega arith) in
      (all_same ∙ ap (run_entries rest) same, all_tree)

  -- A tree that any sequence of insertions and removals builds from the empty one, up to 2 ^ 32 - 3 of them with 64-bit
  -- weights, has the entries that the same edits give a sorted list, its keys increase, each stored sum is that of its
  -- subtree, and it is balanced.
  pub run_lem :
      (edits : List (Edit K V))
      → All IsWeighed edits
      → length edits ≤ height_limit
      → (to_list (run edits empty) ≡ run_entries edits []) × IsTree (run edits empty)
  unfolding to_list
  run_lem edits w bound = run-IsTree edits empty w (tt, tt, tt) (omega arith)

  -- The height of a tree that any sequence of insertions and removals builds from the empty one, up to 2 ^ 32 - 3 of
  -- them with 64-bit weights, is logarithmic: where it is 2d or more, the same edits give a sorted list of 2 ^ d - 1
  -- entries or more.
  pub height-run :
      (edits : List (Edit K V))
      → All IsWeighed edits
      → length edits ≤ height_limit
      → (d : ℕ) → 2 * d ≤ height (run edits empty)
      → 2 ^ d ≤ length (run_entries edits []) + 1
  height-run edits w bound d high =
      let (same, (sorted, summed, avl)) = run_lem edits w bound in
      let more = height-length (run edits empty) d avl high in omega (arith, more, ap length same)
