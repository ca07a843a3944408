-- ===== src/Prelude/Machine.antt =====
-- Machine integers: bounds, saturating and checked addition, little-endian bytes.
use Prim.Native.Nat.{ℕ, zero, suc, ◌+◌, ◌-◌, ◌*◌, ◌/◌, ◌%◌, ◌^◌, ◌<◌, min}
use mathlib.Core.Path.{◌≡◌, refl, ap}
use mathlib.Core.Option.{Option, none, some}
use mathlib.Core.List.{List, [], ◌∷◌}
use native.Mathlib.Omega.{arith}
use native.Mathlib.Nat.{pow-suc}
use editchain.Prelude.Tests.{ltb, if◌then◌else◌}
use editchain.Prelude.Lists.{length, All}

abbrev pub u32_mod : ℕ
u32_mod = 2 ^ 32

abbrev pub u64_mod : ℕ
u64_mod = 2 ^ 64

-- `usize::MAX` and `u64::MAX` on the 64-bit targets.
abbrev pub max_64 : ℕ
max_64 = 2 ^ 64 - 1

abbrev pub IsByte : ℕ → Type 0
IsByte b = b < 256

-- `a.saturating_add(b)` at 64 bits.
abbrev pub saturating_add : ℕ → ℕ → ℕ
saturating_add a b = min (a + b) max_64

-- `a.checked_add(b)` at 64 bits.
abbrev pub checked_add : ℕ → ℕ → Option ℕ
checked_add a b = if ltb max_64 (a + b) then none else some (a + b)

-- `u32::try_from(n)` of a `usize`.
abbrev pub u32_try_from : ℕ → Option ℕ
u32_try_from n = if ltb n u32_mod then some n else none

pub u32_try_from-lt : (n : ℕ) → n < u32_mod → u32_try_from n ≡ some n
u32_try_from-lt n h = ground arith

-- `a.checked_add(b)` at 32 bits.
abbrev pub checked_add_32 : ℕ → ℕ → Option ℕ
checked_add_32 a b = if ltb (a + b) u32_mod then some (a + b) else none

-- `n.to_le_bytes()` of a `k`-byte integer, and `from_le_bytes`.
unfoldable pub to_le_bytes : ℕ → ℕ → List ℕ
to_le_bytes zero n = []
to_le_bytes (suc k) n = (n % 256) ∷ to_le_bytes k (n / 256)

unfoldable pub from_le_bytes : List ℕ → ℕ
from_le_bytes [] = 0
from_le_bytes (b ∷ bs) = b + 256 * from_le_bytes bs

pub length-to_le_bytes : (k n : ℕ) → length (to_le_bytes k n) ≡ k
unfolding to_le_bytes
length-to_le_bytes zero n = refl
length-to_le_bytes (suc k) n = ap suc (length-to_le_bytes k (n / 256))

pub from_le_bytes-lt : (bs : List ℕ) → All IsByte bs → from_le_bytes bs < 256 ^ length bs
unfolding from_le_bytes
from_le_bytes-lt [] h = omega arith
from_le_bytes-lt (b ∷ bs) (hb, hs) = omega (arith, pow-suc 256 (length bs), from_le_bytes-lt bs hs)

pub from_le_bytes-to_le_bytes : (k n : ℕ) → n < 256 ^ k → from_le_bytes (to_le_bytes k n) ≡ n
unfolding from_le_bytes to_le_bytes
from_le_bytes-to_le_bytes zero n h = omega arith
from_le_bytes-to_le_bytes (suc k) n h =
    omega
      (arith, pow-suc 256 k, from_le_bytes-to_le_bytes k (n / 256) (omega (arith, pow-suc 256 k)))

pub to_le_bytes-from_le_bytes :
    (bs : List ℕ) → All IsByte bs → to_le_bytes (length bs) (from_le_bytes bs) ≡ bs
unfolding from_le_bytes to_le_bytes
to_le_bytes-from_le_bytes [] h = refl
to_le_bytes-from_le_bytes (b ∷ bs) (hb, hs) =
    rw (low_digit, high_digits) (ap (λ t. b ∷ t) (to_le_bytes-from_le_bytes bs hs))
  where
    low_digit : (b + 256 * from_le_bytes bs) % 256 ≡ b
    low_digit = omega arith

    high_digits : (b + 256 * from_le_bytes bs) / 256 ≡ from_le_bytes bs
    high_digits = omega arith

pub to_le_bytes-eq :
    (k n : ℕ) (bs : List ℕ)
    → All IsByte bs
    → length bs ≡ k
    → from_le_bytes bs ≡ n
    → to_le_bytes k n ≡ bs
to_le_bytes-eq k n bs h hk hn = rw (← hk, ← hn) (to_le_bytes-from_le_bytes bs h)
