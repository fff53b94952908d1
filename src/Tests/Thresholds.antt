-- ===== src/Tests/Thresholds.antt =====
-- `thresholdLevel` at the borders of its levels.
use node_panel.Prelude.{◌≡◌, refl, ◌*◌, ◌≤◌, ◌↔◌, ℕ, arith}
use node_panel.Prelude.Int.{pos, negsuc}
use node_panel.Api.Threshold.{threshold_level}
use node_panel.Api.Threshold.Levels.{IsLevel, threshold_level_exact, threshold_level_wraps}

threshold_level_exact_example :
    IsLevel (threshold_level (pos 960) (pos 1000))
    × ((m : ℕ) → IsLevel m → (m ≤ threshold_level (pos 960) (pos 1000)) ↔ (m * 1000 ≤ 960 * 100))
threshold_level_exact_example = threshold_level_exact 960 1000 (omega arith) (omega arith)

threshold_level_wraps_example : threshold_level (pos 100000000000000000) (pos 90000000000000000) ≡ 0
threshold_level_wraps_example =
    threshold_level_wraps 100000000000000000 90000000000000000 (omega arith) (omega arith)
      (omega arith) (omega arith)

borders :
    (threshold_level (pos 799) (pos 1000) ≡ 0)
    × (threshold_level (pos 800) (pos 1000) ≡ 80)
    × (threshold_level (pos 950) (pos 1000) ≡ 95)
    × (threshold_level (pos 1000) (pos 1000) ≡ 100)
unfolding threshold_level node_panel.Prelude.Int.wrap64 node_panel.Prelude.Int.quot
    node_panel.Prelude.Int.◌*ℤ◌
borders = (refl, refl, refl, refl)
