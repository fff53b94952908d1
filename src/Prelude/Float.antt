-- ===== src/Prelude/Float.antt =====
-- Go's `float64(n)` of a positive int64 and `%.1f` of it over a power of two, both exactly.
pub mod Rounding
use Prim.Native.Nat.{ℕ, zero, suc, ◌+◌, ◌*◌, ◌/◌, ◌%◌, ◌^◌}
use node_panel.Prelude.Tests.{ltb, eqb, if◌then◌else◌}

-- the nearest integer to `a / d`, the even one of two
unfoldable pub round_half_even : ℕ → ℕ → ℕ
round_half_even a d =
    let q = a / d in
    let twice = 2 * (a % d) in
    if ltb twice d then q else if ltb d twice then q + 1 else if eqb (q % 2) 0 then q else q + 1

-- A double keeps 53 bits: `n` is rounded to a multiple of the first power of two that needs no
-- more. An int64 needs at most ten doublings.
unfoldable pub float_from : ℕ → ℕ → ℕ → ℕ
unfolding round_half_even
float_from zero unit n = round_half_even n unit * unit
float_from (suc fuel) unit n =
    let coarser = float_from fuel (2 * unit) n in
    if ltb n (2 ^ 53 * unit) then round_half_even n unit * unit else coarser

unfoldable pub float64 : ℕ → ℕ
unfolding float_from
float64 n = float_from 10 1 n
