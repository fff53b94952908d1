-- ===== src/Prelude/Int/Percent.antt =====
-- A share in percent, as the code computes it in 64 bits: exact while the product fits, and not
-- positive once it has wrapped.
use Prim.Native.Nat.{ℕ, ◌-◌, ◌*◌, ◌/◌, ◌^◌, ◌≤◌, ◌<◌}
use mathlib.Core.Path.{◌≡◌}
use native.Mathlib.Nat.{div-le_self}
use native.Mathlib.Omega.{arith}
use node_panel.Prelude.Int.{
  pos, negsuc, ◌≤ℤ◌, mul64, div64, *ℤ_pos, quot_pos, quot_neg, quot_neg-IsInt64, wrap64_pos,
  wrap64_high, wrap64_id,
}

pub percent :
    (used quota : ℕ)
    → used * 100 < 2 ^ 63
    → div64 (mul64 (pos used) (pos 100)) (pos quota) ≡ pos (used * 100 / quota)
percent used quota h =
    simp (*ℤ_pos, wrap64_pos (used * 100) h, quot_pos)
      (wrap64_pos (used * 100 / quota) (omega (arith, div-le_self (used * 100) quota)))

not_positive : (k quota : ℕ) → k < 2 ^ 63 → div64 (negsuc k) (pos quota) ≤ℤ pos 0
not_positive k quota h = rw (wrap64_id _ (quot_neg-IsInt64 k quota h)) (quot_neg k quota)

pub percent_wraps :
    (used quota : ℕ)
    → 2 ^ 63 ≤ used * 100
    → used * 100 < 2 ^ 64
    → div64 (mul64 (pos used) (pos 100)) (pos quota) ≤ℤ pos 0
percent_wraps used quota low high =
    rw (*ℤ_pos, wrap64_high (used * 100) low high)
      (not_positive (2 ^ 64 - 1 - used * 100) quota (omega arith))
