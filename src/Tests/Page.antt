-- ===== src/Tests/Page.antt =====
-- internal/api/subpage.go: amounts and the percentage.
use node_panel.Prelude.{◌≡◌, refl, arith, ◌*◌, ◌/◌, ◌^◌, ◌≤◌, ◌<◌}
use node_panel.Prelude.Int.{pos, negsuc, ◌≤ℤ◌}
use node_panel.Api.Page.{human_bytes, pct_of}
use node_panel.Api.Page.Units.{Shown, human_bytes-Shown, pct_of_exact}

human_bytes-Shown_example : Shown 1536 (human_bytes (pos 1536))
human_bytes-Shown_example = human_bytes-Shown 1536 (omega arith)

pct_of_exact_example :
    (pct_of (pos 960) (pos 1000) ≤ℤ pos 100)
    × (960 * 100 < 2 ^ 63 → 960 ≤ 1000 → pct_of (pos 960) (pos 1000) ≡ pos (960 * 100 / 1000))
    × (2 ^ 63 ≤ 960 * 100 → 960 * 100 < 2 ^ 64 → pct_of (pos 960) (pos 1000) ≤ℤ pos 0)
pct_of_exact_example = pct_of_exact 960 1000 (omega arith)

amounts :
    (human_bytes (pos 0) ≡ "0")
    × (human_bytes (pos 1023) ≡ "1023 B")
    × (human_bytes (pos 1536) ≡ "1.5 KB")
    × (human_bytes (pos 1048575) ≡ "1024.0 KB")
    × (human_bytes (pos 5497558138880) ≡ "5.0 TB")
unfolding human_bytes node_panel.Prelude.Text.decimal
amounts = (refl, refl, refl, refl, refl)

wrapped : pct_of (pos 150000000000000000) (pos 1000000) ≡ negsuc 3446744073708
unfolding pct_of node_panel.Prelude.Int.wrap64 node_panel.Prelude.Int.quot
    node_panel.Prelude.Int.◌*ℤ◌
wrapped = refl
