-- ===== src/Order/Number.antt =====
-- `Ord` for the integers.
use Prim.Native.Nat.{Ordering, compare}
use editchain.Prelude.{ℕ, ◌≡◌, arith}
use editchain.Order.{Ord}

pub compare_refl : (a : ℕ) → compare a a ≡ Ordering.eq
compare_refl a = ground arith

pub compare-eq : (a b : ℕ) → compare a b ≡ Ordering.eq → a ≡ b
compare-eq a b h = ground arith

pub compare-gt : (a b : ℕ) → compare a b ≡ Ordering.gt → compare b a ≡ Ordering.lt
compare-gt a b h = ground arith

pub compare-lt : (a b : ℕ) → compare a b ≡ Ordering.lt → compare b a ≡ Ordering.gt
compare-lt a b h = ground arith

pub compare_trans :
    (a b c : ℕ) → compare a b ≡ Ordering.lt → compare b c ≡ Ordering.lt → compare a c ≡ Ordering.lt
compare_trans a b c h h' = ground arith

instance unfoldable pub ord_number : Ord ℕ
ord_number = record {
  cmp = compare;
  cmp_refl = compare_refl;
  cmp-eq = compare-eq;
  cmp-gt = compare-gt;
  cmp-lt = compare-lt;
  cmp_trans = compare_trans;
}
