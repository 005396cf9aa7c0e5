-- ===== src/Common/Powers.antt =====
-- The powers of two that a backoff multiplies by.
use Prim.Native.Nat.{ℕ, zero, suc, ◌*◌, ◌^◌, ◌≤◌}
use native.Mathlib.Omega.{arith}

pub power_positive : (n : ℕ) → 1 ≤ 2 ^ n
power_positive zero = omega arith
power_positive (suc n) = omega (arith, power_positive n)

pub le_scaled : (a b : ℕ) → 1 ≤ b → a ≤ a * b
le_scaled a zero h = omega arith
le_scaled a (suc b) h = omega arith
