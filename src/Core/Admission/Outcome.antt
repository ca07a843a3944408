-- ===== src/Core/Admission/Outcome.antt =====
-- admission.rs: what an insertion reports, and what it means for the accepted view.
use editchain.Prelude.{
  ℕ, suc, ◌+◌, ◌&&◌, ◌||◌, ◌≡◌, ◌≤◌, ◌==◌, refl, sym, ap, ◌∙◌, Bool, true, false, Bool-cases,
  Option, none, some, Option-cases, List, [], ◌∷◌, length, if◌then◌else◌, arith, inl, inr,
}
use editchain.Order.{Ord}
use editchain.Collections.Map.{Set, same, same-eq, same→eq, find, put, length-put, length-put_le}
use editchain.Core.Admission.{
  OpSet, Admission, Counts, count, classify, insert, outcome, contains, variants_of, records,
  merge_records, merge, or_default,
}
use editchain.Core.Admission.Evidence.{
  is_some, retained, retained-insert, retained_ext, insert-IsOpSet, IsOpSet, IsVariants,
  AreVariants-find, variants_of-insert, variants_of-some, variants_of-none,
}

not_one : (n : ℕ) → 2 ≤ n → n == 1 ≡ false
not_one n h = ground arith

covered : (x y r : Bool) → (x ≡ true → y ≡ true → r ≡ true) → (x && y) || r ≡ r
covered true true r h = sym (h refl refl)
covered true false r h = refl
covered false y r h = refl

unknown : (x : Option (Unit {0})) → is_some x ≡ false → x ≡ none
unknown none h = refl
unknown (some u) h = cc

one_more : (n : ℕ) → (n + 1) == 1 ≡ n == 0
one_more n = ground arith

le_self : (n : ℕ) → n ≤ n
le_self n = omega arith

nonzero :
    (n : ℕ) → (if suc n == 0 then Admission.accepted else Admission.conflict) ≡ Admission.conflict
nonzero n = ground arith

module _ {κ} {B : Type κ} ⦃p : Ord B⦄ where
  pub outcome-known :
      (v : Set B) (bytes : B) → find v bytes ≡ some tt → outcome v bytes ≡ Admission.duplicate
  unfolding outcome
  outcome-known v bytes e = rw (e, outcome)

  pub outcome-unknown :
      (v : Set B) (bytes : B)
      → find v bytes ≡ none
      → outcome v bytes ≡ (if length v == 0 then Admission.accepted else Admission.conflict)
  unfolding outcome
  outcome-unknown v bytes e = ground (arith, e, length-put v bytes tt e)

  outcome_new : (bytes : B) → outcome [] bytes ≡ Admission.accepted
  unfolding outcome find put
  outcome_new bytes = refl

module _ {ℓ κ} {K : Type ℓ} {B : Type κ} ⦃o : Ord K⦄ ⦃p : Ord B⦄ where
  pub contains_lem : (set : OpSet K B) (id : K) → contains set id ≡ length (variants_of set id) == 1
  unfolding contains variants_of
  contains_lem set id =
      elim (find set.evidence id)
        as (λ t.
          (elim t [ none ↦ false | some variants ↦ length variants == 1 ])
          ≡ length (or_default t) == 1) [ none ↦ refl | some variants ↦ refl ]

  classify-none :
      (set : OpSet K B) (id : K) (bytes : B)
      → find set.evidence id ≡ none
      → classify set id bytes ≡ Admission.accepted
  unfolding classify
  classify-none set id bytes e = rw (e, classify)

  classify-some :
      (set : OpSet K B) (id : K) (bytes : B) (v : Set B)
      → find set.evidence id ≡ some v
      → IsVariants v
      → outcome v bytes ≡ classify set id bytes
  unfolding classify
  classify-some set id bytes [] e h = absurd h
  classify-some set id bytes (x ∷ rest) e h = elim (Option-cases (find (x ∷ rest) bytes)) [
    | inl f ↦
        outcome-unknown (x ∷ rest) bytes f ∙ nonzero (length rest) ∙ sym (rw (e, classify, f) refl)
    | inr (unit, f) ↦ outcome-known (x ∷ rest) bytes f ∙ rw (e, classify, f) refl
  ]

  -- An insertion reports what `classify` foretells, in a well-formed set.
  pub insert-classify :
      (set : OpSet K B) (id : K) (bytes : B)
      → IsOpSet set
      → (insert set id bytes).1 ≡ classify set id bytes
  unfolding insert
  insert-classify set id bytes h = elim (Option-cases (find set.evidence id)) [
    | inl e ↦
        ap (λ v. outcome v bytes) (variants_of-none set id e)
        ∙ outcome_new bytes
        ∙ sym (classify-none set id bytes e)
    | inr (v, e) ↦
        ap (λ v. outcome v bytes) (variants_of-some set id v e)
        ∙ classify-some set id bytes v e (AreVariants-find set.evidence id v h.1 e)
  ]

  length-variants_of :
      (set : OpSet K B) (id : K) (bytes : B) (other : K)
      → length (variants_of set other) ≤ length (variants_of (insert set id bytes).0 other)
  length-variants_of set id bytes other = elim (Bool-cases (same other id)) [
    | inl e ↦
        rw (variants_of-insert set id bytes other, e, same→eq other id e)
          (length-put_le (variants_of set id) bytes tt)
    | inr e ↦
        rw (variants_of-insert set id bytes other, e) (le_self (length (variants_of set other)))
  ]

  -- An identity with two representations keeps them: no insertion makes it accepted again.
  conflict_kept :
      (set : OpSet K B) (rs : List (K × B)) (counts : Counts) (id : K)
      → 2 ≤ length (variants_of set id)
      → 2 ≤ length (variants_of (merge_records set rs counts).0 id)
  unfolding merge_records
  conflict_kept set [] counts id h = h
  conflict_kept set ((i, b) ∷ rest) counts id h =
      let grown = length-variants_of set i b id in
      conflict_kept (insert set i b).0 rest (count (insert set i b).1 counts) id (omega arith)

  -- An identity with two known representations is not accepted, whatever is inserted or merged afterwards.
  pub conflict_forever :
      (set other : OpSet K B) (rs : List (K × B)) (counts : Counts) (id : K)
      → 2 ≤ length (variants_of set id)
      → (contains (merge_records set rs counts).0 id ≡ false)
        × (contains (merge set other).0 id ≡ false)
  unfolding merge
  conflict_forever set other rs counts id h = (
    contains_lem (merge_records set rs counts).0 id
        ∙ not_one (length (variants_of (merge_records set rs counts).0 id))
            (conflict_kept set rs counts id h),
    contains_lem (merge_records set (records other) (0, 0, 0)).0 id
        ∙ not_one (length (variants_of (merge_records set (records other) (0, 0, 0)).0 id))
            (conflict_kept set (records other) (0, 0, 0) id h),
  )

  -- What an insertion does to the acceptance of an identity. A record that is there changes nothing at all; the first
  -- record of an identity makes it accepted, and any further one takes it out; no other identity is concerned.
  pub contains-insert :
      (set : OpSet K B) (id : K) (bytes : B) (other : K)
      → IsOpSet set
      → (retained set id bytes ≡ true → (insert set id bytes).0 ≡ set)
        × (retained set id bytes ≡ false
            → contains (insert set id bytes).0 id ≡ length (variants_of set id) == 0)
        × (same other id ≡ false → contains (insert set id bytes).0 other ≡ contains set other)
  contains-insert set id bytes other h = (
    λ e. retained_ext (insert set id bytes).0 set (insert-IsOpSet set id bytes h) h (λ i b.
        retained-insert set id bytes i b
        ∙ covered (same i id) (same b bytes) (retained set i b)
            (λ f g. coe 1 0 (j. retained set (same→eq i id f j) (same→eq b bytes g j) ≡ true) e)),
    λ e.
        contains_lem (insert set id bytes).0 id
        ∙ ap (λ v. length v == 1) (variants_of-insert set id bytes id)
        ∙ rw
            (
              same-eq id id (o.cmp_refl id),
              length-put (variants_of set id) bytes tt
                  (unknown (find (variants_of set id) bytes) e),
            )
            (one_more (length (variants_of set id))),
    λ e.
        contains_lem (insert set id bytes).0 other
        ∙ rw (variants_of-insert set id bytes other, e) (sym (contains_lem set other)),
  )
