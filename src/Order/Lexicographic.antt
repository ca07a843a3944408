-- ===== src/Order/Lexicographic.antt =====
-- `Ord` for `Vec<T>`: lexicographic.
use Prim.Native.Nat.{Ordering}
use editchain.Prelude.{◌≡◌, refl, sym, ap, ap₂, ◌∙◌, List, [], ◌∷◌, inl, inr}
use editchain.Order.{Ord, cmp, Ordering-cases}

-- `Ordering::then`, lazily.
abbrev and_then : Ordering → Ordering → Ordering
and_then Ordering.lt next = Ordering.lt
and_then Ordering.eq next = next
and_then Ordering.gt next = Ordering.gt

module _ {ℓ} {A : Type ℓ} ⦃o : Ord A⦄ where
  abbrev pub cmp_list : List A → List A → Ordering
  cmp_list [] [] = Ordering.eq
  cmp_list [] (y ∷ ys) = Ordering.lt
  cmp_list (x ∷ xs) [] = Ordering.gt
  cmp_list (x ∷ xs) (y ∷ ys) = and_then (cmp x y) (cmp_list xs ys)

  pub cmp_list_refl : (xs : List A) → cmp_list xs xs ≡ Ordering.eq
  cmp_list_refl [] = refl
  cmp_list_refl (x ∷ xs) = ap (λ t. and_then t (cmp_list xs xs)) (o.cmp_refl x) ∙ cmp_list_refl xs

  cmp_eq_sym : (a b : A) → cmp a b ≡ Ordering.eq → cmp b a ≡ Ordering.eq
  cmp_eq_sym a b e = coe 0 1 (i. cmp (o.cmp-eq a b e i) a ≡ Ordering.eq) (o.cmp_refl a)

  pub cmp_list-eq : (xs ys : List A) → cmp_list xs ys ≡ Ordering.eq → xs ≡ ys
  cmp_list-eq [] [] h = refl
  cmp_list-eq [] (y ∷ ys) h = cc
  cmp_list-eq (x ∷ xs) [] h = cc
  cmp_list-eq (x ∷ xs) (y ∷ ys) h = elim (Ordering-cases (cmp x y)) [
    | inl e ↦
        let f : Ordering.lt ≡ Ordering.eq = sym (ap (λ t. and_then t (cmp_list xs ys)) e) ∙ h in cc
    | inr (inl e) ↦
        let f : Ordering.gt ≡ Ordering.eq = sym (ap (λ t. and_then t (cmp_list xs ys)) e) ∙ h in cc
    | inr (inr e) ↦
        ap₂ (λ a rest. a ∷ rest) (o.cmp-eq x y e)
          (cmp_list-eq xs ys (sym (ap (λ t. and_then t (cmp_list xs ys)) e) ∙ h))
  ]

  pub cmp_list-gt : (xs ys : List A) → cmp_list xs ys ≡ Ordering.gt → cmp_list ys xs ≡ Ordering.lt
  cmp_list-gt [] [] h = cc
  cmp_list-gt [] (y ∷ ys) h = cc
  cmp_list-gt (x ∷ xs) [] h = refl
  cmp_list-gt (x ∷ xs) (y ∷ ys) h = elim (Ordering-cases (cmp x y)) [
    | inl e ↦
        let f : Ordering.lt ≡ Ordering.gt = sym (ap (λ t. and_then t (cmp_list xs ys)) e) ∙ h in cc
    | inr (inl e) ↦ ap (λ t. and_then t (cmp_list ys xs)) (o.cmp-gt x y e)
    | inr (inr e) ↦
        ap (λ t. and_then t (cmp_list ys xs)) (cmp_eq_sym x y e)
        ∙ cmp_list-gt xs ys (sym (ap (λ t. and_then t (cmp_list xs ys)) e) ∙ h)
  ]

  pub cmp_list-lt : (xs ys : List A) → cmp_list xs ys ≡ Ordering.lt → cmp_list ys xs ≡ Ordering.gt
  cmp_list-lt [] [] h = cc
  cmp_list-lt [] (y ∷ ys) h = refl
  cmp_list-lt (x ∷ xs) [] h = cc
  cmp_list-lt (x ∷ xs) (y ∷ ys) h = elim (Ordering-cases (cmp x y)) [
    | inl e ↦ ap (λ t. and_then t (cmp_list ys xs)) (o.cmp-lt x y e)
    | inr (inl e) ↦
        let f : Ordering.gt ≡ Ordering.lt = sym (ap (λ t. and_then t (cmp_list xs ys)) e) ∙ h in cc
    | inr (inr e) ↦
        ap (λ t. and_then t (cmp_list ys xs)) (cmp_eq_sym x y e)
        ∙ cmp_list-lt xs ys (sym (ap (λ t. and_then t (cmp_list xs ys)) e) ∙ h)
  ]

  pub cmp_list_trans :
      (xs ys zs : List A)
      → cmp_list xs ys ≡ Ordering.lt
      → cmp_list ys zs ≡ Ordering.lt
      → cmp_list xs zs ≡ Ordering.lt
  cmp_list_trans [] [] zs h k = cc
  cmp_list_trans (x ∷ xs) [] zs h k = cc
  cmp_list_trans [] (y ∷ ys) [] h k = cc
  cmp_list_trans (x ∷ xs) (y ∷ ys) [] h k = cc
  cmp_list_trans [] (y ∷ ys) (z ∷ zs) h k = refl
  cmp_list_trans (x ∷ xs) (y ∷ ys) (z ∷ zs) h k = elim (Ordering-cases (cmp x y)) [
    | inr (inl e) ↦
        let f : Ordering.gt ≡ Ordering.lt = sym (ap (λ t. and_then t (cmp_list xs ys)) e) ∙ h in cc
    | inl e ↦ elim (Ordering-cases (cmp y z)) [
      | inl f ↦ ap (λ t. and_then t (cmp_list xs zs)) (o.cmp_trans x y z e f)
      | inr (inl f) ↦
          let g : Ordering.gt ≡ Ordering.lt = sym (ap (λ t. and_then t (cmp_list ys zs)) f) ∙ k in
          cc
      | inr (inr f) ↦
          ap (λ t. and_then t (cmp_list xs zs))
            (coe 0 1 (i. cmp x (o.cmp-eq y z f i) ≡ Ordering.lt) e)
    ]
    | inr (inr e) ↦ elim (Ordering-cases (cmp y z)) [
      | inl f ↦
          ap (λ t. and_then t (cmp_list xs zs))
            (coe 1 0 (i. cmp (o.cmp-eq x y e i) z ≡ Ordering.lt) f)
      | inr (inl f) ↦
          let g : Ordering.gt ≡ Ordering.lt = sym (ap (λ t. and_then t (cmp_list ys zs)) f) ∙ k in
          cc
      | inr (inr f) ↦
          ap (λ t. and_then t (cmp_list xs zs))
            (coe 1 0 (i. cmp (o.cmp-eq x y e i) z ≡ Ordering.eq) f)
          ∙ cmp_list_trans xs ys zs (sym (ap (λ t. and_then t (cmp_list xs ys)) e) ∙ h)
              (sym (ap (λ t. and_then t (cmp_list ys zs)) f) ∙ k)
    ]
  ]

instance unfoldable pub ord_list {ℓ} : {A : Type ℓ} → ⦃o : Ord A⦄ → Ord (List A)
ord_list = record {
  cmp = cmp_list;
  cmp_refl = cmp_list_refl;
  cmp-eq = cmp_list-eq;
  cmp-gt = cmp_list-gt;
  cmp-lt = cmp_list-lt;
  cmp_trans = cmp_list_trans;
}
