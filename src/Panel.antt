-- ===== src/Panel.antt =====
-- cmd/panel/main.go: the process from its start to its end, and what runs in between. A request, a
-- round of the dispatcher's worker and a wake-up of the collector is one step; the steps come in
-- any order and do not interleave within each other. The process may end between any two steps.
pub mod Reached
use node_panel.Prelude.{String, Option, List, [], ◌∷◌, false}
use node_panel.Prelude.Int.{ℤ}
use node_panel.Schema.{Db}
use node_panel.Config.{Config, TokenError, load}
use node_panel.Runtime.{Env, World}
use node_panel.Runtime.Exec.{Err, Result, ok, err, on_result}
use node_panel.Store.Setup.{open_store}
use node_panel.Webhook.{run_one}
use node_panel.Api.Response.{serve}
use node_panel.Api.Collector.{Wake, run_usage_collector}
use node_panel.Api.Router.{Library, Request, serve_http}

pub data Process : Type 0 where
  down : World → Process
  running : Config → World → Process

-- the engine's execution of one statement of schema.sql
abbrev pub Engine : Type 0
Engine = String → Db → Result Err (Unit {0} × Db)

-- A connection enforces no foreign keys until it is told to.
abbrev pub connected : Db → Db
connected db = record db { shape = record db.shape { foreign_keys = false } }

-- `api.New` makes a new channel; its worker is not started yet.
abbrev pub fresh : World → World
fresh w = record w { db = connected w.db; queue = []; worker = false }

abbrev pub opened : Config → Result Err (Unit {0}) × World → Process
opened cfg (ok _, w) = running cfg w
opened cfg (err e, w) = down w

module _ ⦃env : Env⦄ where
  -- `main` up to the first request; `log.Fatalf` ends the process. `schema` is the embedded
  -- schema.sql.
  unfoldable pub start :
      (exec_sql : Engine) (schema : String) (lookup_env : String → Option String)
      (parse_duration : String → Option ℤ)
      → World
      → Process
  start exec_sql schema lookup_env parse_duration w =
      on_result (load lookup_env parse_duration)
        (λ cfg. opened cfg (open_store exec_sql schema (fresh w))) (λ e. down w)

  module _ (lib : Library) where
    pub data Step (cfg : Config) (w : World) : World → Type 0 where
      request : (r : Request) → Step cfg w (serve (serve_http lib cfg r) w).1
      worker : Step cfg w (run_one w)
      wake : (x : Wake) → Step cfg w (run_usage_collector {E = Err} (x ∷ []) w).1

    -- The environment of the process may be another one at each start.
    pub data Reaches (exec_sql : Engine) (schema : String) (disk : World) : Process → Type 0 where
      off : Reaches exec_sql schema disk (down disk)
      boot :
          (lookup_env : String → Option String) (parse_duration : String → Option ℤ) {w : World}
          → Reaches exec_sql schema disk (down w)
          → Reaches exec_sql schema disk (start exec_sql schema lookup_env parse_duration w)
      step :
          {cfg : Config} {u v : World}
          → Reaches exec_sql schema disk (running cfg u)
          → Step cfg u v
          → Reaches exec_sql schema disk (running cfg v)
      stop :
          {cfg : Config} {w : World}
          → Reaches exec_sql schema disk (running cfg w)
          → Reaches exec_sql schema disk (down w)
