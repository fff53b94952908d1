-- ===== src/Api/Threshold/Levels.antt =====
-- What `thresholdLevel` of internal/api/collector.go computes while its product stays within 64
-- bits, and past that.
use native.Mathlib.Nat.{le-div_iff_mul-le}
use node_panel.Prelude.{ℕ, ◌*◌, ◌/◌, ◌^◌, ◌≤◌, ◌<◌, ◌≡◌, ◌↔◌, ◌⊎◌, arith}
use node_panel.Prelude.Int.{ℤ, pos, ◌≤ℤ◌, mul64, div64}
use node_panel.Prelude.Int.Percent.{percent, percent_wraps}
use node_panel.Api.Threshold.{threshold_level, level_of}

abbrev pub IsLevel : ℕ → Type 0
IsLevel m = (m ≡ 0) ⊎ (m ≡ 80) ⊎ (m ≡ 95) ⊎ (m ≡ 100)

level_of_iff : (p m : ℕ) → IsLevel m → (m ≤ level_of (pos p)) ↔ (m ≤ p)
level_of_iff p m h = (λ k. grind arith, λ k. grind arith)

level_of-IsLevel : (p : ℤ) → IsLevel (level_of p)
level_of-IsLevel p = ground arith

threshold_level-IsLevel : (used quota : ℤ) → IsLevel (threshold_level used quota)
unfolding threshold_level
threshold_level-IsLevel used quota =
    ground (arith, level_of-IsLevel (div64 (mul64 used (pos 100)) quota))

threshold_level-pos :
    (used quota : ℕ)
    → used * 100 < 2 ^ 63
    → 0 < quota
    → threshold_level (pos used) (pos quota) ≡ level_of (pos (used * 100 / quota))
unfolding threshold_level
threshold_level-pos used quota h q = rw (percent used quota h) (ground arith)

-- For a positive quota, while a hundred times the usage stays below 2^63, the level is the highest
-- of 0, 80, 95 and 100 that the exact ratio reaches: it is one of them, and each of them lies at or
-- below it exactly when that share of the quota is used up.
pub threshold_level_exact :
    (used quota : ℕ)
    → used * 100 < 2 ^ 63
    → 0 < quota
    → IsLevel (threshold_level (pos used) (pos quota))
      × ((m : ℕ)
          → IsLevel m
          → (m ≤ threshold_level (pos used) (pos quota)) ↔ (m * quota ≤ used * 100))
threshold_level_exact used quota h q = (
  threshold_level-IsLevel (pos used) (pos quota),
  λ m l. rw (threshold_level-pos used quota h q) (
      let cut = level_of_iff (used * 100 / quota) m l in
      let div = le-div_iff_mul-le {k = quota} {x = m} {y = used * 100} q in
      (λ a. div.0 (cut.0 a), λ a. cut.1 (div.1 a))),
)

level_of_not_positive : (p : ℤ) → p ≤ℤ pos 0 → level_of p ≡ 0
level_of_not_positive p h = ground arith

-- Past the 64 bits: once a hundred times the usage lies from 2^63 up to 2^64, the product wraps to
-- a negative number, and the level is 0 although the quota is used up.
pub threshold_level_wraps :
    (used quota : ℕ)
    → 0 < quota
    → quota ≤ used
    → 2 ^ 63 ≤ used * 100
    → used * 100 < 2 ^ 64
    → threshold_level (pos used) (pos quota) ≡ 0
unfolding threshold_level
threshold_level_wraps used quota q full low high =
    ground (arith, level_of_not_positive _ (percent_wraps used quota low high))
