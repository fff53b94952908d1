-- ===== src/Api/Collector.antt =====
-- internal/api/collector.go: the usage collector. Its loop is driven by the wake-ups of the two
-- tickers and of the context.
pub mod Terms
pub mod Round
use node_panel.Prelude.{String, Option, none, some, List, [], ◌∷◌, not, ◌&&◌, ◌==◌, if◌then◌else◌}
use node_panel.Prelude.Text.{is_empty}
use node_panel.Domain.{Subscription}
use node_panel.Wire.{UsageView}
use node_panel.Runtime.{Env}
use node_panel.Runtime.Exec.{Exec, on_result, ◌>>=◌, ◌>>◌, return, attempt, ignore}
use node_panel.Store.Nodes.{get_node}
use node_panel.Store.Subscriptions.{
  list_active_subscriptions, update_subscription_usage, update_subscription_status,
}
use node_panel.Store.History.{record_usage, prune_history, history_retention}
use node_panel.NodeClient.{Client, client_for_node, tenant_usage}
use node_panel.Api.Events.{emit_usage_events, emit_status_event}

-- the map `clients`
abbrev pub cached : String → List (String × Client) → Option Client
cached id [] = none
cached id ((k, c) ∷ cs) = if k == id then some c else cached id cs

pub data Wake : Type 0 where
  collect prune stop : Wake

module _ ⦃env : Env⦄ where
  -- What the loop does with a usage that the node has reported.
  unfoldable pub reflect : {E : Type 0} → Subscription → UsageView → Exec E (Unit {0})
  reflect sub uv = do
    ignore (update_subscription_usage sub.id uv.used_bytes)
    ignore (record_usage sub.node_tenant_id sub.node_id uv.period_id uv.used_bytes)
    emit_usage_events sub uv.used_bytes
    if not (is_empty uv.status) && not (uv.status == sub.status)
        then (do
          ignore (update_subscription_status sub.id uv.status)
          emit_status_event sub uv.status)
        else return tt

  unfoldable pub poll : {E : Type 0} → Client → Subscription → Exec E (Unit {0})
  unfolding reflect
  poll client sub = do
    reported ← attempt (tenant_usage client sub.node_tenant_id)
    on_result reported (λ uv. reflect sub uv) (λ e. return tt)

  abbrev pub keep : String → List (String × Client) → Client → List (String × Client)
  keep id cs c = (id, c) ∷ cs

  -- The loop of `collectUsageOnce`; a node whose record cannot be read is skipped.
  unfoldable pub poll_all :
      {E : Type 0} → List (String × Client) → List Subscription → Exec E (Unit {0})
  poll_all clients [] = return tt
  poll_all clients (sub ∷ subs) = elim (cached sub.node_id clients) [
    | some client ↦ (do poll client sub; poll_all clients subs)
    | none ↦ (do
      node ← attempt (get_node sub.node_id)
      on_result node
          (λ n. (do
            poll (client_for_node n) sub
            poll_all (keep sub.node_id clients (client_for_node n)) subs))
          (λ e. poll_all clients subs))
  ]

  unfoldable pub collect_usage_once : {E : Type 0} → Exec E (Unit {0})
  unfolding poll_all
  collect_usage_once = do
    subs ← attempt list_active_subscriptions
    on_result subs (λ ss. poll_all [] ss) (λ e. return tt)

  unfoldable pub run_usage_collector : {E : Type 0} → List Wake → Exec E (Unit {0})
  run_usage_collector [] = return tt
  run_usage_collector (stop ∷ ws) = return tt
  run_usage_collector (collect ∷ ws) = do collect_usage_once; run_usage_collector ws
  run_usage_collector (prune ∷ ws) = do
    ignore (prune_history history_retention)
    run_usage_collector ws
