-- ===== src/Base/Int.antt =====
-- Signed numbers: `std::int64_t` is a ℤ in its range.
use Prim.Native.Nat.{ℕ, ◌<◌, ◌^◌}

-- `negsuc n` is -(n + 1).
pub data ℤ : Type 0 where
  pos : ℕ → ℤ
  negsuc : ℕ → ℤ

abbrev pub IsInt64 : ℤ → Type 0
IsInt64 (pos n) = n < 2 ^ 63
IsInt64 (negsuc n) = n < 2 ^ 63
