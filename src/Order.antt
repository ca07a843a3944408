-- ===== src/Order.antt =====
-- `std::cmp::Ord`, as an interface: a total order by three-way comparison.
use Prim.Native.Nat.{Ordering}
use editchain.Prelude.{◌≡◌, ◌⊎◌, inl, inr, refl}
pub mod Lexicographic
pub mod Product
pub mod Number

pub record Ord {ℓ} (K : Type ℓ) : Type ℓ where
  pub cmp : K → K → Ordering
  pub cmp_refl : (a : K) → cmp a a ≡ Ordering.eq
  pub cmp-eq : (a b : K) → cmp a b ≡ Ordering.eq → a ≡ b
  pub cmp-gt : (a b : K) → cmp a b ≡ Ordering.gt → cmp b a ≡ Ordering.lt
  pub cmp-lt : (a b : K) → cmp a b ≡ Ordering.lt → cmp b a ≡ Ordering.gt
  pub cmp_trans :
      (a b c : K) → cmp a b ≡ Ordering.lt → cmp b c ≡ Ordering.lt → cmp a c ≡ Ordering.lt

abbrev pub cmp {ℓ} : {K : Type ℓ} ⦃o : Ord K⦄ → K → K → Ordering
cmp ⦃o⦄ = o.cmp

abbrev pub Lt {ℓ} : {K : Type ℓ} ⦃o : Ord K⦄ → K → K → Type 0
Lt ⦃o⦄ a b = o.cmp a b ≡ Ordering.lt

pub Ordering-cases : (c : Ordering) → (c ≡ Ordering.lt) ⊎ ((c ≡ Ordering.gt) ⊎ (c ≡ Ordering.eq))
Ordering-cases Ordering.lt = inl refl
Ordering-cases Ordering.gt = inr (inl refl)
Ordering-cases Ordering.eq = inr (inr refl)
