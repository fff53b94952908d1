-- ===== src/Api/Threshold.antt =====
-- `thresholdLevel` of internal/api/collector.go
pub mod Levels
use node_panel.Prelude.{ℕ, if◌then◌else◌}
use node_panel.Prelude.Int.{ℤ, pos, leb_ℤ, ltb_ℤ, mul64, div64}

abbrev pub level_of : ℤ → ℕ
level_of pct =
    if leb_ℤ (pos 100) pct
    then 100
    else if leb_ℤ (pos 95) pct
    then 95
    else if leb_ℤ (pos 80) pct
    then 80
    else 0

unfoldable pub threshold_level : ℤ → ℤ → ℕ
threshold_level used quota =
    if leb_ℤ quota (pos 0)
    then (if ltb_ℤ (pos 0) used then 100 else 0)
    else level_of (div64 (mul64 used (pos 100)) quota)
