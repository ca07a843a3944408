-- ===== src/Core/Admission.antt =====
-- crates/editchain-core/src/admission.rs: the grow-only set of operation records. `OpId` and `Vec<u8>` are the types
-- `K` and `B`: the set uses their orders only.
use editchain.Prelude.{
  ℕ, ◌+◌, ◌≡◌, ◌==◌, Bool, true, false, Option, none, some, Option_map, List, [], ◌∷◌, ◌++◌, map,
  length, is_empty, if◌then◌else◌, ltb, saturating_add,
}
use editchain.Order.{Ord}
use editchain.Collections.Map.{Map, Set, find, put}
pub mod Evidence
pub mod Merge
pub mod Outcome
pub mod Accepted

pub data Admission : Type 0 where
  accepted duplicate conflict : Admission

pub record OpSet {ℓ κ} (K : Type ℓ) (B : Type κ) : Type (ℓ ⊔ κ) where
  pub evidence : Map K (Set B)

module _ {ℓ κ} {K : Type ℓ} {B : Type κ} where
  abbrev pub new : OpSet K B
  new = record { evidence = [] }

  -- The entry of `iter` for one identity, where it has one representation.
  abbrev pub sole_variant : K × Set B → Option (K × B)
  sole_variant (id, []) = none
  sole_variant (id, ((bytes, unit) ∷ rest)) =
      if length ((bytes, unit) ∷ rest) == 1 then some (id, bytes) else none

  unfoldable pub iter_from : Map K (Set B) → List (K × B)
  iter_from [] = []
  iter_from (entry ∷ rest) =
      let later = iter_from rest in
      elim (sole_variant entry) [ none ↦ later | some pair ↦ pair ∷ later ]

  abbrev pub iter : OpSet K B → List (K × B)
  iter set = iter_from set.evidence

  abbrev pub len : OpSet K B → ℕ
  len set = length (iter set)

  abbrev pub is_empty_set : OpSet K B → Bool
  is_empty_set set = is_empty (iter set)

  unfoldable pub evidence_from : Map K (Set B) → List (K × B)
  evidence_from [] = []
  evidence_from ((id, variants) ∷ rest) =
      map (λ entry. (id, entry.0)) variants ++ evidence_from rest

  -- `OpSet::evidence`
  abbrev pub records : OpSet K B → List (K × B)
  records set = evidence_from set.evidence

  unfoldable pub conflicts_from : Map K (Set B) → Map K (Set B)
  conflicts_from [] = []
  conflicts_from ((id, variants) ∷ rest) =
      let later = conflicts_from rest in
      if ltb 1 (length variants) then (id, variants) ∷ later else later

  abbrev pub conflicts : OpSet K B → Map K (Set B)
  conflicts set = conflicts_from set.evidence

abbrev pub Counts : Type 0
Counts = ℕ × ℕ × ℕ

abbrev pub count : Admission → Counts → Counts
count Admission.accepted (a, d, c) = (saturating_add a 1, d, c)
count Admission.duplicate (a, d, c) = (a, saturating_add d 1, c)
count Admission.conflict (a, d, c) = (a, d, saturating_add c 1)

abbrev pub or_default {κ} : {B : Type κ} → Option (Set B) → Set B
or_default none = []
or_default (some variants) = variants

-- The variants that `self.evidence.entry(id).or_default()` refers to.
unfoldable pub variants_of {ℓ κ} : {K : Type ℓ} {B : Type κ} ⦃o : Ord K⦄ → OpSet K B → K → Set B
variants_of set id = or_default (find set.evidence id)

unfoldable pub outcome {κ} : {B : Type κ} ⦃p : Ord B⦄ → Set B → B → Admission
outcome variants encoded =
    let added = put variants encoded tt in
    elim (find variants encoded) [
      | some unit ↦ Admission.duplicate
      | none ↦ if length added == 1 then Admission.accepted else Admission.conflict
    ]

module _ {ℓ κ} {K : Type ℓ} {B : Type κ} ⦃o : Ord K⦄ ⦃p : Ord B⦄ where
  unfoldable pub classify : OpSet K B → K → B → Admission
  classify set id encoded = elim (find set.evidence id) [
    | none ↦ Admission.accepted
    | some variants ↦ elim (find variants encoded) [
      | some unit ↦ Admission.duplicate
      | none ↦ Admission.conflict
    ]
  ]

  unfoldable pub insert : OpSet K B → K → B → OpSet K B × Admission
  insert set id encoded = (
    record { evidence = put set.evidence id (put (variants_of set id) encoded tt) },
    outcome (variants_of set id) encoded,
  )

  unfoldable pub contains : OpSet K B → K → Bool
  contains set id = elim (find set.evidence id) [
    | none ↦ false
    | some variants ↦ length variants == 1
  ]

  unfoldable pub merge_records : OpSet K B → List (K × B) → Counts → OpSet K B × Counts
  merge_records set [] counts = (set, counts)
  merge_records set ((id, bytes) ∷ rest) counts =
      let (next, admission) = insert set id bytes in
      merge_records next rest (count admission counts)

  unfoldable pub merge : OpSet K B → OpSet K B → OpSet K B × Counts
  merge set other = merge_records set (records other) (0, 0, 0)
