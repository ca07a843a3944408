-- ===== src/Order/Product.antt =====
-- The derived `Ord` of pairs, of `Option` and of structs by their fields.
use Prim.Native.Nat.{Ordering}
use editchain.Prelude.{◌≡◌, refl, sym, ap, ap₂, ◌∙◌, Option, none, some, inl, inr}
use editchain.Order.{Ord, cmp, Ordering-cases}

-- `Ordering::then`
abbrev pub followed_by : Ordering → Ordering → Ordering
followed_by Ordering.lt next = Ordering.lt
followed_by Ordering.eq next = next
followed_by Ordering.gt next = Ordering.gt

pub cmp_eq_sym {ℓ} :
    {A : Type ℓ} ⦃o : Ord A⦄ → (a b : A) → cmp a b ≡ Ordering.eq → cmp b a ≡ Ordering.eq
cmp_eq_sym ⦃o⦄ a b e = coe 0 1 (i. cmp (o.cmp-eq a b e i) a ≡ Ordering.eq) (o.cmp_refl a)

module _ {ℓ κ} {A : Type ℓ} {B : Type κ} ⦃o : Ord A⦄ ⦃p : Ord B⦄ where
  abbrev pub cmp_pair : A × B → A × B → Ordering
  cmp_pair x y = followed_by (cmp (x.0) (y.0)) (cmp (x.1) (y.1))

  pub cmp_pair_refl : (x : A × B) → cmp_pair x x ≡ Ordering.eq
  cmp_pair_refl x = ap (λ t. followed_by t (cmp (x.1) (x.1))) (o.cmp_refl (x.0)) ∙ p.cmp_refl (x.1)

  pub cmp_pair-eq : (x y : A × B) → cmp_pair x y ≡ Ordering.eq → x ≡ y
  cmp_pair-eq x y h = elim (Ordering-cases (cmp (x.0) (y.0))) [
    | inl e ↦
        let f : Ordering.lt ≡ Ordering.eq = sym (ap (λ t. followed_by t (cmp (x.1) (y.1))) e) ∙ h in
        cc
    | inr (inl e) ↦
        let f : Ordering.gt ≡ Ordering.eq = sym (ap (λ t. followed_by t (cmp (x.1) (y.1))) e) ∙ h in
        cc
    | inr (inr e) ↦
        ap₂ (λ a b. (a, b)) (o.cmp-eq (x.0) (y.0) e)
          (p.cmp-eq (x.1) (y.1) (sym (ap (λ t. followed_by t (cmp (x.1) (y.1))) e) ∙ h))
  ]

  pub cmp_pair-gt : (x y : A × B) → cmp_pair x y ≡ Ordering.gt → cmp_pair y x ≡ Ordering.lt
  cmp_pair-gt x y h = elim (Ordering-cases (cmp (x.0) (y.0))) [
    | inl e ↦
        let f : Ordering.lt ≡ Ordering.gt = sym (ap (λ t. followed_by t (cmp (x.1) (y.1))) e) ∙ h in
        cc
    | inr (inl e) ↦ ap (λ t. followed_by t (cmp (y.1) (x.1))) (o.cmp-gt (x.0) (y.0) e)
    | inr (inr e) ↦
        ap (λ t. followed_by t (cmp (y.1) (x.1))) (cmp_eq_sym (x.0) (y.0) e)
        ∙ p.cmp-gt (x.1) (y.1) (sym (ap (λ t. followed_by t (cmp (x.1) (y.1))) e) ∙ h)
  ]

  pub cmp_pair-lt : (x y : A × B) → cmp_pair x y ≡ Ordering.lt → cmp_pair y x ≡ Ordering.gt
  cmp_pair-lt x y h = elim (Ordering-cases (cmp (x.0) (y.0))) [
    | inl e ↦ ap (λ t. followed_by t (cmp (y.1) (x.1))) (o.cmp-lt (x.0) (y.0) e)
    | inr (inl e) ↦
        let f : Ordering.gt ≡ Ordering.lt = sym (ap (λ t. followed_by t (cmp (x.1) (y.1))) e) ∙ h in
        cc
    | inr (inr e) ↦
        ap (λ t. followed_by t (cmp (y.1) (x.1))) (cmp_eq_sym (x.0) (y.0) e)
        ∙ p.cmp-lt (x.1) (y.1) (sym (ap (λ t. followed_by t (cmp (x.1) (y.1))) e) ∙ h)
  ]

  pub cmp_pair_trans :
      (x y z : A × B)
      → cmp_pair x y ≡ Ordering.lt
      → cmp_pair y z ≡ Ordering.lt
      → cmp_pair x z ≡ Ordering.lt
  cmp_pair_trans x y z h k = elim (Ordering-cases (cmp (x.0) (y.0))) [
    | inr (inl e) ↦
        let f : Ordering.gt ≡ Ordering.lt = sym (ap (λ t. followed_by t (cmp (x.1) (y.1))) e) ∙ h in
        cc
    | inl e ↦ elim (Ordering-cases (cmp (y.0) (z.0))) [
      | inl f ↦ ap (λ t. followed_by t (cmp (x.1) (z.1))) (o.cmp_trans (x.0) (y.0) (z.0) e f)
      | inr (inl f) ↦
          let g : Ordering.gt ≡ Ordering.lt =
            sym (ap (λ t. followed_by t (cmp (y.1) (z.1))) f) ∙ k in
          cc
      | inr (inr f) ↦
          ap (λ t. followed_by t (cmp (x.1) (z.1)))
            (coe 0 1 (i. cmp (x.0) (o.cmp-eq (y.0) (z.0) f i) ≡ Ordering.lt) e)
    ]
    | inr (inr e) ↦ elim (Ordering-cases (cmp (y.0) (z.0))) [
      | inl f ↦
          ap (λ t. followed_by t (cmp (x.1) (z.1)))
            (coe 1 0 (i. cmp (o.cmp-eq (x.0) (y.0) e i) (z.0) ≡ Ordering.lt) f)
      | inr (inl f) ↦
          let g : Ordering.gt ≡ Ordering.lt =
            sym (ap (λ t. followed_by t (cmp (y.1) (z.1))) f) ∙ k in
          cc
      | inr (inr f) ↦
          ap (λ t. followed_by t (cmp (x.1) (z.1)))
            (coe 1 0 (i. cmp (o.cmp-eq (x.0) (y.0) e i) (z.0) ≡ Ordering.eq) f)
          ∙ p.cmp_trans (x.1) (y.1) (z.1) (sym (ap (λ t. followed_by t (cmp (x.1) (y.1))) e) ∙ h)
              (sym (ap (λ t. followed_by t (cmp (y.1) (z.1))) f) ∙ k)
    ]
  ]

module _ {ℓ} {A : Type ℓ} ⦃o : Ord A⦄ where
  abbrev pub cmp_option : Option A → Option A → Ordering
  cmp_option none none = Ordering.eq
  cmp_option none (some b) = Ordering.lt
  cmp_option (some a) none = Ordering.gt
  cmp_option (some a) (some b) = cmp a b

  pub cmp_option_refl : (x : Option A) → cmp_option x x ≡ Ordering.eq
  cmp_option_refl none = refl
  cmp_option_refl (some a) = o.cmp_refl a

  pub cmp_option-eq : (x y : Option A) → cmp_option x y ≡ Ordering.eq → x ≡ y
  cmp_option-eq none none h = refl
  cmp_option-eq none (some b) h = cc
  cmp_option-eq (some a) none h = cc
  cmp_option-eq (some a) (some b) h = ap some (o.cmp-eq a b h)

  pub cmp_option-gt : (x y : Option A) → cmp_option x y ≡ Ordering.gt → cmp_option y x ≡ Ordering.lt
  cmp_option-gt none none h = cc
  cmp_option-gt none (some b) h = cc
  cmp_option-gt (some a) none h = refl
  cmp_option-gt (some a) (some b) h = o.cmp-gt a b h

  pub cmp_option-lt : (x y : Option A) → cmp_option x y ≡ Ordering.lt → cmp_option y x ≡ Ordering.gt
  cmp_option-lt none none h = cc
  cmp_option-lt none (some b) h = refl
  cmp_option-lt (some a) none h = cc
  cmp_option-lt (some a) (some b) h = o.cmp-lt a b h

  pub cmp_option_trans :
      (x y z : Option A)
      → cmp_option x y ≡ Ordering.lt
      → cmp_option y z ≡ Ordering.lt
      → cmp_option x z ≡ Ordering.lt
  cmp_option_trans none none z h k = cc
  cmp_option_trans none (some b) none h k = cc
  cmp_option_trans none (some b) (some c) h k = refl
  cmp_option_trans (some a) none z h k = cc
  cmp_option_trans (some a) (some b) none h k = cc
  cmp_option_trans (some a) (some b) (some c) h k = o.cmp_trans a b c h k

-- The order of a struct is that of its fields, by an injective map to them.
abbrev pub ord_on {ℓ κ} :
    {A : Type ℓ} {B : Type κ} → Ord B → (f : A → B) → ((a b : A) → f a ≡ f b → a ≡ b) → Ord A
ord_on o f injective = record {
  cmp = λ a b. o.cmp (f a) (f b);
  cmp_refl = λ a. o.cmp_refl (f a);
  cmp-eq = λ a b h. injective a b (o.cmp-eq (f a) (f b) h);
  cmp-gt = λ a b h. o.cmp-gt (f a) (f b) h;
  cmp-lt = λ a b h. o.cmp-lt (f a) (f b) h;
  cmp_trans = λ a b c h k. o.cmp_trans (f a) (f b) (f c) h k;
}

instance unfoldable pub ord_pair {ℓ κ} :
    {A : Type ℓ} {B : Type κ} → ⦃o : Ord A⦄ → ⦃p : Ord B⦄ → Ord (A × B)
ord_pair = record {
  cmp = cmp_pair;
  cmp_refl = cmp_pair_refl;
  cmp-eq = cmp_pair-eq;
  cmp-gt = cmp_pair-gt;
  cmp-lt = cmp_pair-lt;
  cmp_trans = cmp_pair_trans;
}

instance unfoldable pub ord_option {ℓ} : {A : Type ℓ} → ⦃o : Ord A⦄ → Ord (Option A)
ord_option = record {
  cmp = cmp_option;
  cmp_refl = cmp_option_refl;
  cmp-eq = cmp_option-eq;
  cmp-gt = cmp_option-gt;
  cmp-lt = cmp_option-lt;
  cmp_trans = cmp_option_trans;
}
