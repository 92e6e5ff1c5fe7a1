-- ===== src/Common/Int.antt =====
-- Go's `int` (64 bits) as an integer with its range.
use Prim.Native.Nat.{ℕ, ◌-◌, ◌≤◌, ◌^◌}

-- `negsuc n` is -(n + 1).
pub data ℤ : Type 0 where
  pos : ℕ → ℤ
  negsuc : ℕ → ℤ

-- the largest `int`
abbrev pub max_int : ℕ
max_int = 2 ^ 63 - 1

-- The integers that an `int` holds.
abbrev pub IsInt : ℤ → Type 0
IsInt (pos n) = n ≤ max_int
IsInt (negsuc n) = n ≤ max_int
