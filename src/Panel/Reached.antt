-- ===== src/Panel/Reached.antt =====
-- What holds in every state of the panel, from its first start on.
use node_panel.Prelude.{arith, String, Option, [], ◌∷◌, inl, inr}
use node_panel.Prelude.Int.{ℤ}
use node_panel.Config.{Config}
use node_panel.Config.Checks.{Strong, load-Strong}
use node_panel.Runtime.{Env, World}
use node_panel.Runtime.Exec.{Err, Result, ok, err}
use node_panel.Runtime.Exec.Keeps.{Allows}
use node_panel.Store.Setup.{open_store}
use node_panel.Store.Intact.{Intact}
use node_panel.Store.Intact.Opened.{enforcing, enforcing-Intact, Opened, open_store-Opened}
use node_panel.Api.Router.{Library}
use node_panel.Api.Kept.Requests.{serve_http-Keeps}
use node_panel.Api.Kept.Running.{Intact-run_one, run_usage_collector-Keeps}
use node_panel.Panel.{
  Engine, Process, down, running, fresh, opened, start, Step, request, worker, wake, Reaches, off,
  boot, step, stop,
}

-- The tables are intact; a panel that serves enforces foreign keys, and its token is neither public
-- nor short.
abbrev pub Sound : Process → Type 0
Sound (down w) = Intact (enforcing w.db)
Sound (running cfg w) = Intact w.db × Strong cfg.api_token

module _ ⦃env : Env⦄ where
  opened-Sound :
      (cfg : Config) (r : Result Err (Unit {0}) × World)
      → Strong cfg.api_token
      → Opened r
      → Sound (opened cfg r)
  opened-Sound cfg (ok _, w) strong (inl i) = (i, strong)
  opened-Sound cfg (ok _, w) strong (inr (e, h, i)) = absurd (ground (arith, h))
  opened-Sound cfg (err e, w) strong (inl i) = enforcing-Intact i
  opened-Sound cfg (err e, w) strong (inr (e', h, i)) = i

  start-Sound :
      (exec_sql : Engine) (schema : String) (lookup_env : String → Option String)
      (parse_duration : String → Option ℤ) (w : World)
      → ((text : String) → Allows Intact (exec_sql text))
      → Intact (enforcing w.db)
      → Sound (start exec_sql schema lookup_env parse_duration w)
  unfolding start
  start-Sound exec_sql schema lookup_env parse_duration w kept i =
      elim (load-Strong lookup_env parse_duration) [
        | inl (cfg, e, same, strong) ↦ rw e (
            opened-Sound cfg (open_store exec_sql schema (fresh w)) strong
              (open_store-Opened exec_sql kept schema (fresh w) i))
        | inr (x, e, weak) ↦ rw e i
      ]

  module _ (lib : Library) where
    Step-Intact : {cfg : Config} {w w' : World} → Step lib cfg w w' → Intact w.db → Intact w'.db
    Step-Intact {cfg} {w} (request r) i = (serve_http-Keeps lib cfg r).at w i
    Step-Intact {cfg} {w} worker i = Intact-run_one w i
    Step-Intact {cfg} {w} (wake x) i = (run_usage_collector-Keeps {E = Err} (x ∷ [])).at w i

    -- From tables that are intact, in whatever order the panel is started, serves requests with or
    -- without a token, lets its worker and its collector run, ends and is started again, whatever
    -- nodes, consumers, driver, clock and environment answer, provided that the statements of
    -- schema.sql keep the tables intact: keys stay unique in every table, every subscription has
    -- its customer, plan and node, every key its customer and every recorded delivery its endpoint;
    -- and whenever it serves, its connection enforces foreign keys and its token has 24 bytes or
    -- more and is not the public one. A new connection enforces none until `Open` turns them on.
    pub Reaches-Sound :
        (exec_sql : Engine) (schema : String) (disk : World) {p : Process}
        → ((text : String) → Allows Intact (exec_sql text))
        → Intact (enforcing disk.db)
        → Reaches lib exec_sql schema disk p
        → Sound p
    Reaches-Sound exec_sql schema disk kept i off = i
    Reaches-Sound exec_sql schema disk kept i (boot lookup_env parse_duration {w} before) =
        start-Sound exec_sql schema lookup_env parse_duration w kept
          (Reaches-Sound exec_sql schema disk kept i before)
    Reaches-Sound exec_sql schema disk kept i (step before s) =
        let (intact, strong) = Reaches-Sound exec_sql schema disk kept i before in
        (Step-Intact s intact, strong)
    Reaches-Sound exec_sql schema disk kept i (stop before) =
        enforcing-Intact (Reaches-Sound exec_sql schema disk kept i before).0
