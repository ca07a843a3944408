-- ===== src/Core/Admission/Accepted.antt =====
-- admission.rs: the accepted view, as `iter` lists it.
use editchain.Prelude.{
  ℕ, suc, ◌==◌, ◌≡◌, refl, sym, ap, ◌∙◌, Bool, false, ◌&&◌, ◌||◌, [], ◌∷◌, length, arith, inl, inr,
}
use editchain.Order.{Ord, cmp, Ordering-cases}
use editchain.Collections.Map.{
  Map, Set, same, same-eq, same-ne, Lt-ne-eq, gt-ne-eq, find, find-head, find-tail, IsMap, IsAbove,
}
use editchain.Core.Admission.{OpSet, iter, iter_from, contains, variants_of, or_default}
use editchain.Core.Admission.Evidence.{is_some, retained, IsOpSet}
use editchain.Core.Admission.Merge.{listed, and_false, or_false}
use editchain.Core.Admission.Outcome.{contains_lem}

more_than_one : (n : ℕ) → suc (suc n) == 1 ≡ false
more_than_one n = ground arith

module _ {κ} {B : Type κ} ⦃p : Ord B⦄ where
  -- Whether an identity with these variants is accepted with these bytes.
  abbrev is_sole : Set B → B → Bool
  is_sole variants bytes = (length variants == 1) && is_some (find variants bytes)

module _ {ℓ κ} {K : Type ℓ} {B : Type κ} ⦃o : Ord K⦄ ⦃p : Ord B⦄ where
  listed-iter_head :
      (i : K) (variants : Set B) (rest : Map K (Set B)) (id : K) (bytes : B)
      → listed (iter_from ((i, variants) ∷ rest)) id bytes
        ≡ (same id i && is_sole variants bytes) || listed (iter_from rest) id bytes
  unfolding iter_from listed find
  listed-iter_head i [] rest id bytes =
      ap (λ x. x || listed (iter_from rest) id bytes) (sym (and_false (same id i)))
  listed-iter_head i ((b, u) ∷ []) rest id bytes = ground arith
  listed-iter_head i ((b, u) ∷ x ∷ more) rest id bytes = ground (arith, more_than_one (length more))

  listed-iter_above :
      (m : Map K (Set B)) (id : K) (bytes : B)
      → IsAbove id m
      → listed (iter_from m) id bytes ≡ false
  unfolding iter_from listed
  listed-iter_above [] id bytes h = refl
  listed-iter_above ((i, variants) ∷ rest) id bytes h =
      listed-iter_head i variants rest id bytes
      ∙ ap (λ x. (x && is_sole variants bytes) || listed (iter_from rest) id bytes)
          (same-ne id i (Lt-ne-eq id i h.0))
      ∙ listed-iter_above rest id bytes h.1

  listed-iter_entry :
      (i : K) (variants : Set B) (rest : Map K (Set B)) (id : K) (bytes : B)
      → IsAbove i rest
      → listed (iter_from rest) id bytes ≡ is_sole (or_default (find rest id)) bytes
      → (same id i && is_sole variants bytes) || listed (iter_from rest) id bytes
        ≡ is_sole (or_default (find ((i, variants) ∷ rest) id)) bytes
  listed-iter_entry i variants rest id bytes above later = elim (Ordering-cases (cmp id i)) [
    | inl e ↦
        rw (same-ne id i (Lt-ne-eq id i e), find-tail i variants rest id (Lt-ne-eq id i e)) later
    | inr (inl e) ↦
        rw (same-ne id i (gt-ne-eq id i e), find-tail i variants rest id (gt-ne-eq id i e)) later
    | inr (inr e) ↦
        coe 1 0
          (i'.
            (same (o.cmp-eq id i e i') i && is_sole variants bytes)
              || listed (iter_from rest) (o.cmp-eq id i e i') bytes
            ≡ is_sole (or_default (find ((i, variants) ∷ rest) (o.cmp-eq id i e i'))) bytes)
          (rw
            (
              same-eq i i (o.cmp_refl i),
              listed-iter_above rest i bytes above,
              find-head i variants rest,
            )
            (or_false (is_sole variants bytes)))
  ]

  listed-iter_from :
      (m : Map K (Set B)) (id : K) (bytes : B)
      → IsMap m
      → listed (iter_from m) id bytes ≡ is_sole (or_default (find m id)) bytes
  unfolding iter_from listed find
  listed-iter_from [] id bytes h = refl
  listed-iter_from ((i, variants) ∷ rest) id bytes h =
      listed-iter_head i variants rest id bytes
      ∙ listed-iter_entry i variants rest id bytes h.0 (listed-iter_from rest id bytes h.1)

  -- The accepted view has a record exactly where its identity is accepted and the set has retained it.
  pub listed-iter :
      (set : OpSet K B) (id : K) (bytes : B)
      → IsOpSet set
      → listed (iter set) id bytes ≡ contains set id && retained set id bytes
  unfolding variants_of
  listed-iter set id bytes h =
      listed-iter_from set.evidence id bytes h.0
      ∙ ap (λ x. x && retained set id bytes) (sym (contains_lem set id))
