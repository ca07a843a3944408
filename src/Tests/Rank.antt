-- ===== src/Tests/Rank.antt =====
-- Runs of the rank tree of rank.rs, over numbers as keys.
use editchain.Prelude.{
  List, [], ◌∷◌, map, true, false, ℕ, ◌+◌, ◌^◌, ◌≡◌, ◌≤◌, refl, some, Option_map, arith, length,
}
use editchain.Order.Number.{ord_number}
use editchain.IndexPages.Sorted.{IsSorted, lookup, insert_entry, remove_entry}
use editchain.IndexPages.Rank.{
  Measure, Axis, Link, empty, node, height, no_measure, balance_node, balance, pop_min,
  replace_node, insert, remove, get, rank_from, rank, prefix, select_from, select,
}
use editchain.IndexPages.Rank.Bound.{Bound, bound, bound_from}
use editchain.IndexPages.Rank.Bound.Extremes.{MeetsLower, MeetsUpper, IsFirst, IsLast, bound_lem}
use editchain.IndexPages.Rank.Contents.{to_list, insert_lem, remove_lem, get_lem}
use editchain.IndexPages.Rank.Sums.{IsSummed}
use editchain.IndexPages.Rank.Edits.{Edit, run, run_entries, IsTree, run_lem, height-run}
use editchain.IndexPages.Rank.Height.{IsGrown, IsShrunk, insert-IsAvl, remove-IsAvl}
use editchain.IndexPages.Rank.Balance.{IsAvl}
use editchain.IndexPages.Rank.Queries.{total_before, prefix_lem, rank_lem}
use editchain.IndexPages.Rank.Prefixes.{
  prefixes, prefix_batch, write, write_all, blank, enumerate_from, place, sort_queries,
  split_queries,
}
use editchain.IndexPages.Rank.Prefixes.Batch.{prefixes_lem}
use editchain.IndexPages.Replacement.{replace_value}
use editchain.IndexPages.Rank.Mutation.{get_mut, shape, get_mut_lem}
use editchain.IndexPages.Rank.Traversal.{drain, iter, item, iter_lem, next_item, pop, descend}
use editchain.IndexPages.Rank.Select.{scan, select_lem}

abbrev weighing : ℕ → ℕ → Measure
weighing a b = record { expanded = a; visible = b }

abbrev push : Link ℕ ℕ → ℕ → Link ℕ ℕ
push t k = (insert t k (k + 100) (weighing k 1)).0

-- Five keys in increasing order, which the rotations keep low.
abbrev five : Link ℕ ℕ
five = push (push (push (push (push empty 1) 2) 3) 4) 5

abbrev small : Link ℕ ℕ
small =
    node 2 102 (weighing 2 1) (weighing 6 3) 2
      (node 1 101 (weighing 1 1) (weighing 1 1) 1 empty empty)
      (node 3 103 (weighing 3 1) (weighing 3 1) 1 empty empty)

five-height : height five ≡ 3
unfolding ord_number insert balance balance_node
five-height = refl

select-five : select five 4 Axis.expanded ≡ some (3, 103, weighing 3 2)
unfolding ord_number insert balance balance_node select select_from
select-five = refl

rank-five : rank five 4 ≡ some (weighing 6 3)
unfolding ord_number insert balance balance_node rank rank_from
rank-five = refl

remove-five : (remove five 2).1 ≡ some 102
unfolding ord_number insert balance balance_node remove replace_node pop_min
remove-five = refl

small-IsSorted : IsSorted (to_list small)
unfolding to_list ord_number
small-IsSorted = ((refl, (refl, tt)), ((refl, tt), (tt, tt)))

small-IsSummed : IsSummed small
small-IsSummed = (
  (omega arith, omega arith),
  refl,
  ((omega arith, omega arith), refl, tt, tt),
  ((omega arith, omega arith), refl, tt, tt),
)

small-IsAvl : IsAvl small
small-IsAvl = (
  refl,
  omega arith,
  omega arith,
  (refl, omega arith, omega arith, tt, tt),
  (refl, omega arith, omega arith, tt, tt),
)

insert_lem_example :
    (to_list (insert small 5 105 (weighing 5 1)).0
      ≡ insert_entry (to_list small) 5 105 (weighing 5 1))
    × IsSorted (to_list (insert small 5 105 (weighing 5 1)).0)
    × ((insert small 5 105 (weighing 5 1)).1 ≡ lookup (to_list small) 5)
insert_lem_example = insert_lem small 5 105 (weighing 5 1) small-IsSorted

remove_lem_example :
    (to_list (remove small 2).0 ≡ remove_entry (to_list small) 2)
    × IsSorted (to_list (remove small 2).0)
    × ((remove small 2).1 ≡ lookup (to_list small) 2)
remove_lem_example = remove_lem small 2 small-IsSorted

get_lem_example : get small 3 ≡ lookup (to_list small) 3
get_lem_example = get_lem small 3 small-IsSorted

insert-IsAvl_example : IsGrown small (insert small 5 105 (weighing 5 1)).0
insert-IsAvl_example = insert-IsAvl small 5 105 (weighing 5 1) small-IsAvl (omega arith)

remove-IsAvl_example : IsShrunk small (remove small 2).0
remove-IsAvl_example = remove-IsAvl small 2 small-IsAvl (omega arith)

prefix_lem_example : prefix small 3 ≡ total_before (to_list small) 3
prefix_lem_example = prefix_lem small 3 small-IsSummed small-IsSorted

rank_lem_example :
    rank small 3 ≡ Option_map (λ _. total_before (to_list small) 3) (lookup (to_list small) 3)
rank_lem_example = rank_lem small 3 small-IsSummed small-IsSorted

select_lem_example : select small 4 Axis.expanded ≡ scan (to_list small) no_measure 4 Axis.expanded
select_lem_example = select_lem small 4 Axis.expanded small-IsSummed

bound_run : bound five (Bound.excluded 3) false ≡ some (4, 104)
unfolding ord_number insert balance balance_node bound bound_from
bound_run = refl

bound_lem_example :
    IsFirst (MeetsLower (Bound.included 2)) (to_list small) (bound small (Bound.included 2) false)
    × IsLast (MeetsUpper (Bound.included 2)) (to_list small) (bound small (Bound.included 2) true)
bound_lem_example = bound_lem small (Bound.included 2) small-IsSorted

prefixes-five :
    prefixes five (4 ∷ (9 ∷ (2 ∷ (4 ∷ []))))
    ≡ weighing 6 3 ∷ (weighing 15 5 ∷ (weighing 1 1 ∷ (weighing 6 3 ∷ [])))
unfolding ord_number insert balance balance_node prefixes prefix_batch write write_all blank
    enumerate_from place sort_queries split_queries
prefixes-five = refl

prefixes_lem_example : prefixes five (4 ∷ (2 ∷ [])) ≡ map (prefix five) (4 ∷ (2 ∷ []))
prefixes_lem_example = prefixes_lem five (4 ∷ (2 ∷ []))

iter-five :
    drain 6 (iter five) ≡ some ((1, 101) ∷ ((2, 102) ∷ ((3, 103) ∷ ((4, 104) ∷ ((5, 105) ∷ [])))))
unfolding ord_number insert balance balance_node drain iter next_item pop descend
iter-five = refl

iter_lem_example : drain 4 (iter small) ≡ some (map item (to_list small))
unfolding to_list
iter_lem_example = iter_lem small 4 (omega arith)

-- A write through `get_mut`, and what the tree has then.
get_mut-five : Option_map (λ m. get (m.1 900) 4) (get_mut five 4) ≡ some (some 900)
unfolding ord_number insert balance balance_node get get_mut
get_mut-five = refl

get_mut_lem_example :
    (Option_map (λ m. m.0) (get_mut small 3) ≡ lookup (to_list small) 3)
    × (Option_map (λ m. to_list (m.1 900)) (get_mut small 3) ≡ replace_value (to_list small) 3 900)
    × (Option_map (λ m. shape (m.1 900)) (get_mut small 3)
        ≡ Option_map (λ m. shape small) (get_mut small 3))
get_mut_lem_example = get_mut_lem small 3 900 small-IsSorted

abbrev edits : List (Edit ℕ ℕ)
edits =
    Edit.insertion 2 102 (weighing 2 1)
    ∷ (Edit.insertion 1 101 (weighing 1 1)
        ∷ (Edit.removal 2 ∷ (Edit.insertion 1 201 (weighing 4 0) ∷ [])))

abbrev three_edits : List (Edit ℕ ℕ)
three_edits =
    Edit.insertion 1 101 (weighing 1 1)
    ∷ (Edit.insertion 2 102 (weighing 2 1) ∷ (Edit.insertion 3 103 (weighing 3 1) ∷ []))

run-edits : to_list (run edits empty) ≡ (1, 201, weighing 4 0) ∷ []
unfolding ord_number insert remove replace_node balance balance_node run to_list
run-edits = refl

run_lem_example : (to_list (run edits empty) ≡ run_entries edits []) × IsTree (run edits empty)
run_lem_example =
    run_lem edits
      (
        (omega arith, omega arith),
        ((omega arith, omega arith), (tt, ((omega arith, omega arith), tt))),
      )
      (omega arith)

height-run_example : 2 ^ 1 ≤ length (run_entries three_edits []) + 1
unfolding ord_number insert balance balance_node run
height-run_example =
    height-run three_edits
      ((omega arith, omega arith), ((omega arith, omega arith), ((omega arith, omega arith), tt)))
      (omega arith) 1 (omega arith)
