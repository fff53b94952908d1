-- ===== src/Tests/Running.antt =====
-- The panel at work: a request without a token, a round of the worker and a collection.
use node_panel.Prelude.{refl, [], ◌∷◌, String, Option, some, none, ◌≡◌, ◌==◌, if◌then◌else◌, subst}
use node_panel.Runtime.{World}
use node_panel.Runtime.Exec.{Err}
use node_panel.Webhook.{run_one}
use node_panel.Api.Response.{serve}
use node_panel.Api.Collector.{collect, run_usage_collector}
use node_panel.Api.Router.{serve_http}
use node_panel.Store.Intact.{Intact}
use node_panel.Panel.{fresh, Reaches, off, boot, step, request, worker, wake, start, running, down}
use node_panel.Panel.Reached.{Sound, Reaches-Sound}
use node_panel.Store.Setup.{open_store}
use node_panel.Store.Intact.Inserted.{ok_db}
use node_panel.Schema.{Db}
use node_panel.Runtime.Exec.{Result, ok}
use node_panel.Runtime.Exec.Keeps.{Allows}
use node_panel.Prelude.Int.{ℤ}
use node_panel.Tests.Fixtures.{demo, panel, tables}
use node_panel.Tests.Router.{library, settings, asking}

tables-Intact : Intact tables
tables-Intact = record {
  enforced = refl;
  customers = (refl, tt);
  plans = (refl, tt);
  nodes = (refl, tt);
  subscriptions = (refl, tt);
  api_keys = tt;
  usage_records = tt;
  endpoints = (refl, tt);
  deliveries = tt;
  owned = (refl, tt);
  planned = (refl, tt);
  placed = (refl, tt);
  keyed = tt;
  addressed = tt;
}

-- an engine that finds every table of the schema
abbrev tables_exist : String → Db → Result Err (Unit {0} × Db)
tables_exist text db = ok (tt, db)

tables_exist-Allows : (text : String) → Allows Intact (tables_exist text)
tables_exist-Allows text = record { at = λ db db' a h i. subst Intact (ok_db h) i }

abbrev variables : String → Option String
variables key = if key == "PANEL_API_TOKEN" then some settings.api_token else none

abbrev no_duration : String → Option ℤ
no_duration text = none

abbrev up : World
up = (open_store tables_exist "CREATE TABLE IF NOT EXISTS plans" (fresh panel)).1

booted :
    start tables_exist "CREATE TABLE IF NOT EXISTS plans" variables no_duration panel
    ≡ running settings up
unfolding start node_panel.Config.load open_store node_panel.Prelude.Text.split
    node_panel.Prelude.Text.trim_space node_panel.Prelude.Text.trim_right
    node_panel.Prelude.Text.trim_left node_panel.Prelude.Text.is_space
    node_panel.Prelude.Text.contains node_panel.Prelude.Text.starts_with
booted = refl

turned_off : start tables_exist "" (λ key. none) no_duration panel ≡ down panel
unfolding start node_panel.Config.load
turned_off = refl

abbrev asked : World
asked = (serve (serve_http library settings (asking "/api/v1/customers")) up).1

abbrev collected : World
collected = (run_usage_collector {E = Err} (collect ∷ []) asked).1

-- a start, a request without a token, a collection, and the delivery of its event
abbrev busy :
    Reaches library tables_exist "CREATE TABLE IF NOT EXISTS plans" panel
      (running settings (run_one collected))
busy =
    step
      (step
        (step
          (subst (Reaches library tables_exist "CREATE TABLE IF NOT EXISTS plans" panel) booted
            (boot variables no_duration off))
          (request (asking "/api/v1/customers")))
        (wake collect))
      worker

Reaches-Sound_example : Sound (running settings (run_one collected))
Reaches-Sound_example =
    Reaches-Sound library tables_exist "CREATE TABLE IF NOT EXISTS plans" panel tables_exist-Allows
      tables-Intact busy
