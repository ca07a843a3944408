-- ===== src/Core/Admission/Merge.antt =====
-- admission.rs: `merge` is set union, so it does not matter in which order replicas see the records.
use editchain.Prelude.{
  ◌≡◌, refl, sym, ap, ap₂, ◌∙◌, Bool, true, false, ◌&&◌, ◌||◌, List, [], ◌∷◌, ◌++◌, map, arith, inl,
  inr,
}
use editchain.Order.{Ord, cmp, Ordering-cases}
use editchain.Collections.Map.{
  Map, Set, same, same-eq, same-ne, Lt-ne-eq, gt-ne-eq, find, find-head, find-tail, IsMap, IsAbove,
}
use editchain.Core.Admission.{
  OpSet, Counts, count, new, insert, variants_of, records, evidence_from, merge_records, merge,
  or_default,
}
use editchain.Core.Admission.Evidence.{
  is_some, retained, retained-insert, retained_ext, IsOpSet, insert-IsOpSet,
}

or_shuffle : (a b c : Bool) → a || (b || c) ≡ (b || a) || c
or_shuffle true true c = refl
or_shuffle true false c = refl
or_shuffle false true c = refl
or_shuffle false false c = refl

or_assoc : (a b c : Bool) → a || (b || c) ≡ (a || b) || c
or_assoc true b c = refl
or_assoc false b c = refl

or_comm : (a b : Bool) → a || b ≡ b || a
or_comm true true = refl
or_comm true false = refl
or_comm false true = refl
or_comm false false = refl

or_self : (a : Bool) → a || a ≡ a
or_self true = refl
or_self false = refl

pub and_false : (a : Bool) → a && false ≡ false
and_false true = refl
and_false false = refl

pub or_false : (a : Bool) → a || false ≡ a
or_false true = refl
or_false false = refl

module _ {ℓ κ} {K : Type ℓ} {B : Type κ} ⦃o : Ord K⦄ ⦃p : Ord B⦄ where
  -- Whether a record is among those of a list.
  unfoldable pub listed : List (K × B) → K → B → Bool
  listed [] id bytes = false
  listed ((i, b) ∷ rest) id bytes = (same id i && same bytes b) || listed rest id bytes

  pub merge_records-IsOpSet :
      (set : OpSet K B) (rs : List (K × B)) (counts : Counts)
      → IsOpSet set
      → IsOpSet (merge_records set rs counts).0
  unfolding merge_records
  merge_records-IsOpSet set [] counts h = h
  merge_records-IsOpSet set ((id, bytes) ∷ rest) counts h =
      merge_records-IsOpSet (insert set id bytes).0 rest (count (insert set id bytes).1 counts)
        (insert-IsOpSet set id bytes h)

  -- Inserting a list of records one by one: what is retained is what was, and what is in the list.
  pub retained-merge_records :
      (set : OpSet K B) (rs : List (K × B)) (counts : Counts) (id : K) (bytes : B)
      → retained (merge_records set rs counts).0 id bytes
        ≡ listed rs id bytes || retained set id bytes
  unfolding merge_records listed
  retained-merge_records set [] counts id bytes = refl
  retained-merge_records set ((i, b) ∷ rest) counts id bytes =
      retained-merge_records (insert set i b).0 rest (count (insert set i b).1 counts) id bytes
      ∙ ap (λ x. listed rest id bytes || x) (retained-insert set i b id bytes)
      ∙ or_shuffle (listed rest id bytes) (same id i && same bytes b) (retained set id bytes)

  listed-append :
      (xs ys : List (K × B)) (id : K) (bytes : B)
      → listed (xs ++ ys) id bytes ≡ listed xs id bytes || listed ys id bytes
  unfolding listed
  listed-append [] ys id bytes = refl
  listed-append ((i, b) ∷ xs) ys id bytes =
      ap (λ x. (same id i && same bytes b) || x) (listed-append xs ys id bytes)
      ∙ or_assoc (same id i && same bytes b) (listed xs id bytes) (listed ys id bytes)

  listed-variants :
      (variants : Set B) (i id : K) (bytes : B)
      → listed (map (λ entry. (i, entry.0)) variants) id bytes
        ≡ same id i && is_some (find variants bytes)
  unfolding listed find
  listed-variants [] i id bytes = sym (and_false (same id i))
  listed-variants ((b, unit) ∷ rest) i id bytes = ground (arith, listed-variants rest i id bytes)

  listed-above :
      (m : Map K (Set B)) (id : K) (bytes : B)
      → IsAbove id m
      → listed (evidence_from m) id bytes ≡ false
  unfolding evidence_from listed
  listed-above [] id bytes h = refl
  listed-above ((i, variants) ∷ rest) id bytes h =
      listed-append (map (λ entry. (i, entry.0)) variants) (evidence_from rest) id bytes
      ∙ ap₂ (λ x y. x || y)
          (listed-variants variants i id bytes
            ∙ ap (λ x. x && is_some (find variants bytes)) (same-ne id i (Lt-ne-eq id i h.0)))
          (listed-above rest id bytes h.1)

  listed-entry :
      (i : K) (variants : Set B) (rest : Map K (Set B)) (id : K) (bytes : B)
      → IsAbove i rest
      → listed (evidence_from rest) id bytes ≡ is_some (find (or_default (find rest id)) bytes)
      → (same id i && is_some (find variants bytes)) || listed (evidence_from rest) id bytes
        ≡ is_some (find (or_default (find ((i, variants) ∷ rest) id)) bytes)
  listed-entry i variants rest id bytes above later = elim (Ordering-cases (cmp id i)) [
    | inl e ↦
        rw (same-ne id i (Lt-ne-eq id i e), find-tail i variants rest id (Lt-ne-eq id i e)) later
    | inr (inl e) ↦
        rw (same-ne id i (gt-ne-eq id i e), find-tail i variants rest id (gt-ne-eq id i e)) later
    | inr (inr e) ↦
        coe 1 0
          (i'.
            (same (o.cmp-eq id i e i') i && is_some (find variants bytes))
              || listed (evidence_from rest) (o.cmp-eq id i e i') bytes
            ≡ is_some (find (or_default (find ((i, variants) ∷ rest) (o.cmp-eq id i e i'))) bytes))
          (rw
            (same-eq i i (o.cmp_refl i), listed-above rest i bytes above, find-head i variants rest)
            (or_false (is_some (find variants bytes))))
  ]

  -- The records a set lists are those it retains.
  listed-evidence_from :
      (m : Map K (Set B)) (id : K) (bytes : B)
      → IsMap m
      → listed (evidence_from m) id bytes ≡ is_some (find (or_default (find m id)) bytes)
  unfolding evidence_from listed find
  listed-evidence_from [] id bytes h = refl
  listed-evidence_from ((i, variants) ∷ rest) id bytes h =
      listed-append (map (λ entry. (i, entry.0)) variants) (evidence_from rest) id bytes
      ∙ ap (λ x. x || listed (evidence_from rest) id bytes) (listed-variants variants i id bytes)
      ∙ listed-entry i variants rest id bytes h.0 (listed-evidence_from rest id bytes h.1)

  pub listed-records :
      (set : OpSet K B) (id : K) (bytes : B)
      → IsOpSet set
      → listed (records set) id bytes ≡ retained set id bytes
  unfolding variants_of
  listed-records set id bytes h = listed-evidence_from set.evidence id bytes h.0

  pub retained-merge :
      (a b : OpSet K B) (id : K) (bytes : B)
      → IsOpSet b
      → retained (merge a b).0 id bytes ≡ retained b id bytes || retained a id bytes
  unfolding merge
  retained-merge a b id bytes h =
      retained-merge_records a (records b) (0, 0, 0) id bytes
      ∙ ap (λ x. x || retained a id bytes) (listed-records b id bytes h)

  merge-IsOpSet : (a b : OpSet K B) → IsOpSet a → IsOpSet (merge a b).0
  unfolding merge
  merge-IsOpSet a b h = merge_records-IsOpSet a (records b) (0, 0, 0) h

  -- Merging well-formed sets is commutative: either replica ends with the same set.
  pub merge_comm : (a b : OpSet K B) → IsOpSet a → IsOpSet b → (merge a b).0 ≡ (merge b a).0
  merge_comm a b ha hb =
      retained_ext (merge a b).0 (merge b a).0 (merge-IsOpSet a b ha) (merge-IsOpSet b a hb)
        (λ id bytes.
          retained-merge a b id bytes hb
          ∙ or_comm (retained b id bytes) (retained a id bytes)
          ∙ sym (retained-merge b a id bytes ha))

  -- Merging well-formed sets is associative: the grouping of the exchanges between replicas does not matter.
  pub merge_assoc :
      (a b c : OpSet K B)
      → IsOpSet a
      → IsOpSet b
      → IsOpSet c
      → (merge (merge a b).0 c).0 ≡ (merge a (merge b c).0).0
  merge_assoc a b c ha hb hc =
      retained_ext (merge (merge a b).0 c).0 (merge a (merge b c).0).0
        (merge-IsOpSet (merge a b).0 c (merge-IsOpSet a b ha)) (merge-IsOpSet a (merge b c).0 ha)
        (λ id bytes.
          retained-merge (merge a b).0 c id bytes hc
          ∙ ap (λ x. retained c id bytes || x) (retained-merge a b id bytes hb)
          ∙ or_assoc (retained c id bytes) (retained b id bytes) (retained a id bytes)
          ∙ ap (λ x. x || retained a id bytes) (sym (retained-merge b c id bytes hc))
          ∙ sym (retained-merge a (merge b c).0 id bytes (merge-IsOpSet b c hb)))

  -- A set depends on which records were inserted into an empty one, and not on their order or on how often each came.
  pub merge_records_perm :
      (xs ys : List (K × B)) (c d : Counts)
      → ((id : K) (bytes : B) → listed xs id bytes ≡ listed ys id bytes)
      → (merge_records new xs c).0 ≡ (merge_records new ys d).0
  merge_records_perm xs ys c d h =
      retained_ext (merge_records new xs c).0 (merge_records new ys d).0
        (merge_records-IsOpSet new xs c (tt, tt)) (merge_records-IsOpSet new ys d (tt, tt))
        (λ id bytes.
          retained-merge_records new xs c id bytes
          ∙ ap (λ x. x || retained new id bytes) (h id bytes)
          ∙ sym (retained-merge_records new ys d id bytes))
