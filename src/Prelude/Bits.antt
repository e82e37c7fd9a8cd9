-- ===== src/Prelude/Bits.antt =====
-- A mask bounds what it leaves.
use Prim.Native.Nat.{digits, bit_and-bitwise}
use audiod.Prelude.{ℕ, zero, suc, ◌/◌, ◌≤◌, min, arith, bit_and}

digits_le : (fuel a b : ℕ) → digits (λ c. 0) min fuel a b ≤ b
digits_le zero a b = omega arith
digits_le (suc fuel) zero b = omega arith
digits_le (suc fuel) (suc a) b = omega (arith, digits_le fuel (suc a / 2) (b / 2))

pub bit_and_le : (a b : ℕ) → bit_and a b ≤ b
bit_and_le a b = omega (arith, bit_and-bitwise a b, digits_le a a b)
