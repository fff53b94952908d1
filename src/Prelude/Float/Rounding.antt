-- ===== src/Prelude/Float/Rounding.antt =====
-- How far rounding moves a number.
use Prim.Native.Nat.{ℕ, zero, suc, ◌+◌, ◌*◌, ◌^◌, ◌≤◌, ◌<◌}
use mathlib.Core.Path.{◌≡◌}
use mathlib.Core.Logic.{◌⊎◌, inl, inr}
use native.Mathlib.Omega.{arith}
use node_panel.Prelude.Tests.{ltb, Bool-cases}
use node_panel.Prelude.Float.{round_half_even, float_from, float64}

-- `q` is as near to `a / d` as an integer can be.
pub record Nearest (a d q : ℕ) : Type 0 where
  pub below : 2 * a ≤ 2 * (q * d) + d
  pub above : 2 * (q * d) ≤ 2 * a + d

pub round_half_even-Nearest : (a d : ℕ) → 0 < d → Nearest a d (round_half_even a d)
unfolding round_half_even
round_half_even-Nearest a d h = record { below = grind arith; above = grind arith }

-- within one part in 2^53
pub record Near (n f : ℕ) : Type 0 where
  pub below : 2 ^ 53 * n ≤ 2 ^ 53 * f + n
  pub above : 2 ^ 53 * f ≤ 2 ^ 53 * n + n

Fine : ℕ → ℕ → Type 0
Fine unit n = (unit ≡ 1) ⊎ (2 ^ 52 * unit ≤ n)

rounded-Near : (unit n q : ℕ) → 0 < unit → Fine unit n → Nearest n unit q → Near n (q * unit)
unfolding Fine
rounded-Near unit n q pos (inl one) near = record {
  below = grind (arith, near.below, near.above, one);
  above = grind (arith, near.below, near.above, one);
}
rounded-Near unit n q pos (inr small) near = record {
  below = grind (arith, near.below, near.above, small);
  above = grind (arith, near.below, near.above, small);
}

float_from-Near : (fuel unit n : ℕ) → 0 < unit → Fine unit n → Near n (float_from fuel unit n)
unfolding float_from
float_from-Near zero unit n pos fine =
    rounded-Near unit n _ pos fine (round_half_even-Nearest n unit pos)
float_from-Near (suc fuel) unit n pos fine = elim (Bool-cases (ltb n (2 ^ 53 * unit))) [
  | inl t ↦ rw t (rounded-Near unit n _ pos fine (round_half_even-Nearest n unit pos))
  | inr t ↦
      rw t
        (float_from-Near fuel (2 * unit) n (omega arith) (unfold Fine in inr (ground (arith, t))))
]

pub float64-Near : (n : ℕ) → Near n (float64 n)
unfolding float64 Fine
float64-Near n = float_from-Near 10 1 n (omega arith) (inl (omega arith))
