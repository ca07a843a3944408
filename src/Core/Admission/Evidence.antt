-- ===== src/Core/Admission/Evidence.antt =====
-- admission.rs: what a set has retained, and that it is determined by that.
use Prim.Native.Nat.{Ordering}
use editchain.Prelude.{
  ◌≡◌, refl, sym, ap, ◌∙◌, Bool, true, false, ◌&&◌, ◌||◌, Option, none, some, Option-cases, [], ◌∷◌,
  if◌then◌else◌, inl, inr, Bool-cases,
}
use editchain.Order.{Ord, cmp}
use editchain.Collections.Map.{
  Map, Set, same, find, put, same→eq, IsMap, find-put_same, find_ext, find-put, put-IsMap,
}
use editchain.Core.Admission.{OpSet, insert, variants_of, or_default}

abbrev pub is_some {ℓ} : {A : Type ℓ} → Option A → Bool
is_some none = false
is_some (some a) = true

is_some-if {ℓ} :
    {A : Type ℓ} (b : Bool) (x : A) (y : Option A)
    → is_some (if b then some x else y) ≡ b || is_some y
is_some-if true x y = refl
is_some-if false x y = refl

module _ {κ} {B : Type κ} ⦃p : Ord B⦄ where
  abbrev pub IsVariants : Set B → Type 0
  IsVariants [] = ⊥
  IsVariants (x ∷ rest) = IsMap (x ∷ rest)

  pub IsVariants-IsMap : (variants : Set B) → IsVariants variants → IsMap variants
  IsVariants-IsMap [] h = absurd h
  IsVariants-IsMap (x ∷ rest) h = h

  IsMap-IsVariants :
      (variants : Set B) (bytes : B)
      → IsMap variants
      → find variants bytes ≡ some tt
      → IsVariants variants
  unfolding find
  IsMap-IsVariants [] bytes h e = cc
  IsMap-IsVariants (x ∷ rest) bytes h e = h

  put-IsVariants :
      (variants : Set B) (bytes : B) → IsMap variants → IsVariants (put variants bytes tt)
  put-IsVariants variants bytes h =
      IsMap-IsVariants (put variants bytes tt) bytes (put-IsMap variants bytes tt h)
        (find-put_same variants bytes tt)

  or_default-if :
      (b : Bool) (x : Set B) (y : Option (Set B))
      → or_default (if b then some x else y) ≡ (if b then x else or_default y)
  or_default-if true x y = refl
  or_default-if false x y = refl

is_some_ext : (x y : Option (Unit {0})) → is_some x ≡ is_some y → x ≡ y
is_some_ext none none h = refl
is_some_ext none (some b) h = cc
is_some_ext (some a) none h = cc
is_some_ext (some a) (some b) h = refl

module _ {κ} {B : Type κ} ⦃p : Ord B⦄ where
  retained-put :
      (variants : Set B) (bytes others : B)
      → is_some (find (put variants bytes tt) others)
        ≡ same others bytes || is_some (find variants others)
  retained-put variants bytes others =
      ap is_some (find-put variants bytes tt others)
      ∙ is_some-if (same others bytes) tt (find variants others)

  or_default_ext :
      (x y : Option (Set B))
      → ((v : Set B) → x ≡ some v → IsVariants v)
      → ((v : Set B) → y ≡ some v → IsVariants v)
      → or_default x ≡ or_default y
      → x ≡ y
  or_default_ext none none hx hy h = refl
  or_default_ext none (some v) hx hy h = absurd (coe 1 0 (i. IsVariants (h i)) (hy v refl))
  or_default_ext (some v) none hx hy h = absurd (coe 0 1 (i. IsVariants (h i)) (hx v refl))
  or_default_ext (some v) (some w) hx hy h = ap some h

module _ {ℓ κ} {K : Type ℓ} {B : Type κ} ⦃o : Ord K⦄ ⦃p : Ord B⦄ where
  -- Whether a set has a record.
  abbrev pub retained : OpSet K B → K → B → Bool
  retained set id bytes = is_some (find (variants_of set id) bytes)

  abbrev pub AreVariants : Map K (Set B) → Type 0
  AreVariants [] = Unit
  AreVariants ((id, variants) ∷ rest) = IsVariants variants × AreVariants rest

  -- The keys of both levels increase, and no identity is without a representation.
  abbrev pub IsOpSet : OpSet K B → Type 0
  IsOpSet set = IsMap set.evidence × AreVariants set.evidence

  pub AreVariants-find :
      (m : Map K (Set B)) (id : K) (variants : Set B)
      → AreVariants m
      → find m id ≡ some variants
      → IsVariants variants
  unfolding find
  AreVariants-find [] id variants h e = cc
  AreVariants-find ((k, v) ∷ rest) id variants h e =
      (elim (cmp id k)
          as (λ t.
            (elim t [ Ordering.eq ↦ some v | _ ↦ find rest id ]) ≡ some variants
            → IsVariants variants) [
              | Ordering.eq ↦ λ f. let g : v ≡ variants = cc in coe 0 1 (i. IsVariants (g i)) h.0
              | _ ↦ λ f. AreVariants-find rest id variants h.1 f
            ])
        e

  AreVariants-put :
      (m : Map K (Set B)) (id : K) (variants : Set B)
      → AreVariants m
      → IsVariants variants
      → AreVariants (put m id variants)
  unfolding put
  AreVariants-put [] id variants h hv = (hv, tt)
  AreVariants-put ((k, v) ∷ rest) id variants h hv =
      elim (cmp id k)
        as (λ t. AreVariants (elim t [
          | Ordering.lt ↦ (id, variants) ∷ ((k, v) ∷ rest)
          | Ordering.eq ↦ (k, variants) ∷ rest
          | Ordering.gt ↦ (k, v) ∷ put rest id variants
        ])) [
          | Ordering.lt ↦ (hv, h)
          | Ordering.eq ↦ (hv, h.1)
          | Ordering.gt ↦ (h.0, AreVariants-put rest id variants h.1 hv)
        ]

  pub variants_of-some :
      (set : OpSet K B) (id : K) (variants : Set B)
      → find set.evidence id ≡ some variants
      → variants_of set id ≡ variants
  unfolding variants_of
  variants_of-some set id variants e = ap or_default e

  pub variants_of-none :
      (set : OpSet K B) (id : K) → find set.evidence id ≡ none → variants_of set id ≡ []
  unfolding variants_of
  variants_of-none set id e = ap or_default e

  pub variants_of-IsMap : (set : OpSet K B) (id : K) → IsOpSet set → IsMap (variants_of set id)
  variants_of-IsMap set id h = elim (Option-cases (find set.evidence id)) [
    | inl e ↦ coe 1 0 (i. IsMap (variants_of-none set id e i)) tt
    | inr (variants, e) ↦
        coe 1 0 (i. IsMap (variants_of-some set id variants e i))
          (IsVariants-IsMap variants (AreVariants-find set.evidence id variants h.1 e))
  ]

  pub insert-IsOpSet :
      (set : OpSet K B) (id : K) (bytes : B) → IsOpSet set → IsOpSet (insert set id bytes).0
  unfolding insert
  insert-IsOpSet set id bytes h = (
    put-IsMap set.evidence id (put (variants_of set id) bytes tt) h.0,
    AreVariants-put set.evidence id (put (variants_of set id) bytes tt) h.1
        (put-IsVariants (variants_of set id) bytes (variants_of-IsMap set id h)),
  )

  pub variants_of-insert :
      (set : OpSet K B) (id : K) (bytes : B) (other : K)
      → variants_of (insert set id bytes).0 other
        ≡ (if same other id then put (variants_of set id) bytes tt else variants_of set other)
  unfolding insert variants_of
  variants_of-insert set id bytes other =
      ap or_default (find-put set.evidence id (put (variants_of set id) bytes tt) other)
      ∙ or_default-if (same other id) (put (variants_of set id) bytes tt) (find set.evidence other)

  -- An insertion adds its record, and no other.
  pub retained-insert :
      (set : OpSet K B) (id : K) (bytes : B) (other : K) (others : B)
      → retained (insert set id bytes).0 other others
        ≡ (same other id && same others bytes) || retained set other others
  retained-insert set id bytes other others =
      ap (λ v. is_some (find v others)) (variants_of-insert set id bytes other)
      ∙ elim (Bool-cases (same other id)) [
        | inl e ↦ rw e (
            retained-put (variants_of set id) bytes others
            ∙ ap (λ k. same others bytes || retained set k others) (sym (same→eq other id e)))
        | inr e ↦ rw e refl
      ]

  -- Sets that retain the same records are equal.
  pub retained_ext :
      (a b : OpSet K B)
      → IsOpSet a
      → IsOpSet b
      → ((id : K) (bytes : B) → retained a id bytes ≡ retained b id bytes)
      → a ≡ b
  unfolding variants_of
  retained_ext a b ha hb h =
      ap (λ e. record { evidence = e }) (find_ext a.evidence b.evidence ha.0 hb.0 at_id)
    where
      variants_ext : (id : K) → variants_of a id ≡ variants_of b id
      variants_ext id =
          find_ext (variants_of a id) (variants_of b id) (variants_of-IsMap a id ha)
            (variants_of-IsMap b id hb)
            (λ bytes.
              is_some_ext (find (variants_of a id) bytes) (find (variants_of b id) bytes)
                (h id bytes))

      at_id : (id : K) → find a.evidence id ≡ find b.evidence id
      at_id id =
          or_default_ext (find a.evidence id) (find b.evidence id)
            (λ v e. AreVariants-find a.evidence id v ha.1 e)
            (λ v e. AreVariants-find b.evidence id v hb.1 e) (variants_ext id)
