-- ===== src/Tests/Admission.antt =====
-- Runs of the admission set of admission.rs, with numbers for identities and for encoded records.
use editchain.Prelude.{ℕ, ◌≡◌, ◌≤◌, ◌==◌, ◌&&◌, refl, true, false, [], ◌∷◌, arith, length}
use editchain.Order.Number.{ord_number}
use editchain.Collections.Map.{find, put, same}
use editchain.Core.Admission.{
  OpSet, new, insert, outcome, variants_of, classify, contains, iter, iter_from, conflicts,
  conflicts_from, merge_records, merge,
}
use editchain.Core.Admission.Evidence.{retained, IsOpSet}
use editchain.Core.Admission.Merge.{listed, merge_comm, merge_assoc, merge_records_perm}
use editchain.Core.Admission.Outcome.{insert-classify, contains-insert, conflict_forever}
use editchain.Core.Admission.Accepted.{listed-iter}

abbrev empty_set : OpSet ℕ ℕ
empty_set = new

-- One identity with one record, and one with two.
abbrev mixed : OpSet ℕ ℕ
mixed = record { evidence = (1, (10, tt) ∷ []) ∷ ((2, (20, tt) ∷ ((21, tt) ∷ [])) ∷ []) }

abbrev other : OpSet ℕ ℕ
other = record { evidence = (1, (11, tt) ∷ []) ∷ [] }

mixed_run :
    (merge_records empty_set ((2, 21) ∷ ((1, 10) ∷ ((2, 20) ∷ ((2, 21) ∷ [])))) (0, 0, 0))
    ≡ (mixed, (2, 1, 1))
unfolding ord_number merge_records insert outcome variants_of find put
mixed_run = refl

iter_run : iter mixed ≡ (1, 10) ∷ []
unfolding iter_from
iter_run = refl

conflicts_run : conflicts mixed ≡ (2, (20, tt) ∷ ((21, tt) ∷ [])) ∷ []
unfolding conflicts_from
conflicts_run = refl

mixed-IsOpSet : IsOpSet mixed
unfolding ord_number
mixed-IsOpSet = (((refl, tt), (tt, tt)), ((tt, tt), (((refl, tt), (tt, tt)), tt)))

other-IsOpSet : IsOpSet other
unfolding ord_number
other-IsOpSet = ((tt, tt), ((tt, tt), tt))

merge_comm_example : (merge mixed other).0 ≡ (merge other mixed).0
merge_comm_example = merge_comm mixed other mixed-IsOpSet other-IsOpSet

merge_assoc_example : (merge (merge mixed other).0 mixed).0 ≡ (merge mixed (merge other mixed).0).0
merge_assoc_example = merge_assoc mixed other mixed mixed-IsOpSet other-IsOpSet mixed-IsOpSet

two_records :
    (id : ℕ) (bytes : ℕ)
    → listed ((1, 10) ∷ ((1, 10) ∷ [])) id bytes ≡ listed ((1, 10) ∷ []) id bytes
unfolding listed
two_records id bytes = ground arith

merge_records_perm_example :
    (merge_records empty_set ((1, 10) ∷ ((1, 10) ∷ [])) (0, 0, 0)).0
    ≡ (merge_records empty_set ((1, 10) ∷ []) (0, 0, 0)).0
merge_records_perm_example =
    merge_records_perm ((1, 10) ∷ ((1, 10) ∷ [])) ((1, 10) ∷ []) (0, 0, 0) (0, 0, 0) two_records

insert-classify_example : (insert mixed 1 11).1 ≡ classify mixed 1 11
insert-classify_example = insert-classify mixed 1 11 mixed-IsOpSet

contains-insert_example :
    (retained mixed 1 11 ≡ true → (insert mixed 1 11).0 ≡ mixed)
    × (retained mixed 1 11 ≡ false
        → contains (insert mixed 1 11).0 1 ≡ length (variants_of mixed 1) == 0)
    × (same {K = ℕ} 2 1 ≡ false → contains (insert mixed 1 11).0 2 ≡ contains mixed 2)
contains-insert_example = contains-insert mixed 1 11 2 mixed-IsOpSet

two_variants : 2 ≤ length (variants_of mixed 2)
unfolding ord_number variants_of find
two_variants = omega arith

conflict_forever_example :
    (contains (merge_records mixed ((2, 20) ∷ []) (0, 0, 0)).0 2 ≡ false)
    × (contains (merge mixed other).0 2 ≡ false)
conflict_forever_example = conflict_forever mixed other ((2, 20) ∷ []) (0, 0, 0) 2 two_variants

listed-iter_example : listed (iter mixed) 1 10 ≡ contains mixed 1 && retained mixed 1 10
listed-iter_example = listed-iter mixed 1 10 mixed-IsOpSet
