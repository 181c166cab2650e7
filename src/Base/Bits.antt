-- ===== src/Base/Bits.antt =====
-- `(value << 8) | byte` is the sum: the low eight bits of the left side are zero.
use Prim.Native.Nat.{ℕ, zero, suc, ◌+◌, ◌*◌, ◌/◌, ◌%◌, ◌≤◌, ◌<◌, max}
use Prim.Native.Nat.{bit_or, digits, bit_or-bitwise}
use mathlib.Core.Path.{◌≡◌, refl}
use native.Mathlib.Omega.{arith}

abbrev keep : ℕ → ℕ
keep y = y

or_digits-fuel : (n m a b : ℕ) → a ≤ n → a ≤ m → digits keep max n a b ≡ digits keep max m a b
or_digits-fuel (suc n) (suc m) (suc a) b p q =
    rw (or_digits-fuel n m (suc a / 2) (b / 2) (omega arith) (omega arith))
or_digits-fuel zero zero zero b p q = refl
or_digits-fuel zero (suc m) zero b p q = refl
or_digits-fuel (suc n) zero zero b p q = refl
or_digits-fuel (suc n) (suc m) zero b p q = refl
or_digits-fuel _ _ (suc a) b p q = absurd (omega arith)

-- One bit at a time.
bit_or_halves : (a b : ℕ) → bit_or a b ≡ bit_or (a / 2) (b / 2) * 2 + max (a % 2) (b % 2)
bit_or_halves zero b = simp bit_or-bitwise (omega arith)
bit_or_halves (suc a) b =
    simp bit_or-bitwise
      (omega (arith, or_digits-fuel a (suc a / 2) (suc a / 2) (b / 2) (omega arith) (omega arith)))

bit_or_even : (a b : ℕ) → bit_or (a * 2) b ≡ bit_or a (b / 2) * 2 + b % 2
bit_or_even a b = ground (arith, bit_or_halves (a * 2) b)

bit_or-zero_bounded : (n a : ℕ) → a ≤ n → bit_or a 0 ≡ a
bit_or-zero_bounded n zero h = refl
bit_or-zero_bounded zero (suc a) h = absurd (omega arith)
bit_or-zero_bounded (suc n) (suc a) h =
    omega (arith, bit_or_halves (suc a) 0, bit_or-zero_bounded n (suc a / 2) (omega arith))

low_nibble : (v b : ℕ) → b < 16 → bit_or (v * 16) b ≡ v * 16 + b
low_nibble v b h = ground (
  arith,
  bit_or_even (v * 8) b,
  bit_or_even (v * 4) (b / 2),
  bit_or_even (v * 2) (b / 4),
  bit_or_even v (b / 8),
  bit_or-zero_bounded v v (omega arith),
)

pub bit_or_byte : (v b : ℕ) → b < 256 → bit_or (v * 256) b ≡ v * 256 + b
bit_or_byte v b h = ground (
  arith,
  bit_or_even (v * 128) b,
  bit_or_even (v * 64) (b / 2),
  bit_or_even (v * 32) (b / 4),
  bit_or_even (v * 16) (b / 8),
  low_nibble v (b / 16),
)
