-- ===== src/Prelude/Bits.antt =====
-- Bounds on `bit_and` at variables, from the recursion on binary digits that it stands for.
use Prim.Native.Nat.{ℕ, zero, suc, ◌/◌, ◌≤◌, min, digits, bit_and, bit_and-bitwise}
use native.Mathlib.Omega.{arith}

digits-le : (n a b : ℕ) → (digits (λ _. 0) min n a b ≤ a) × (digits (λ _. 0) min n a b ≤ b)
digits-le zero a b = omega arith
digits-le (suc n) zero b = omega arith
digits-le (suc n) (suc a) b = omega (arith, digits-le n (suc a / 2) (b / 2))

pub bit_and-le_right : (a b : ℕ) → bit_and a b ≤ b
bit_and-le_right a b = rw (bit_and-bitwise a b) (digits-le a a b).1

pub bit_and-le_left : (a b : ℕ) → bit_and a b ≤ a
bit_and-le_left a b = rw (bit_and-bitwise a b) (digits-le a a b).0
