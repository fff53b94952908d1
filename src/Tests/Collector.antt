-- ===== src/Tests/Collector.antt =====
-- The usage collector of internal/api/collector.go on the small panel.
use node_panel.Prelude.{List, [], ◌∷◌, ◌≡◌, refl}
use node_panel.Api.Collector.{run_usage_collector, Wake, collect, prune, stop}
use node_panel.Api.Collector.Terms.{Harmless}
use node_panel.Api.Collector.Round.{run_usage_collector-SameTerms}
use node_panel.Prelude.Int.{pos, sub64}
use node_panel.Runtime.Exec.{ok}
use node_panel.Store.History.{prune_history, history_retention}
use node_panel.Store.Retention.{Pruned, prune_history-Pruned}
use node_panel.Tests.Fixtures.{demo, panel}

abbrev a_day : List Wake
a_day = collect ∷ prune ∷ collect ∷ stop ∷ []

run_usage_collector-SameTerms_example : Harmless (run_usage_collector a_day) panel
run_usage_collector-SameTerms_example = run_usage_collector-SameTerms a_day panel

pruned : (prune_history history_retention panel).0 ≡ ok tt
unfolding prune_history
pruned = refl

prune_history-Pruned_example :
    Pruned (sub64 (pos 1000) history_retention) panel (prune_history history_retention panel).1
prune_history-Pruned_example = prune_history-Pruned history_retention panel pruned
