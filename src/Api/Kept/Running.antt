-- ===== src/Api/Kept/Running.antt =====
-- internal/api/collector.go and internal/webhook/dispatcher.go: what runs beside the requests.
use node_panel.Prelude.{
  ◌≡◌, ◌⊎◌, refl, ℕ, zero, suc, ◌+◌, String, List, [], ◌∷◌, ◌==◌, inl, inr, Option-cases,
  Bool-cases,
}
use node_panel.Domain.{Subscription, WebhookEndpoint}
use node_panel.Wire.{UsageView, Job}
use node_panel.Runtime.{Env, World, next}
use node_panel.Runtime.Exec.{Err, Result, ok, err, attempt, ignore}
use node_panel.Runtime.Exec.Keeps.{Keeps, Keeps-if, Keeps-then, Keeps-bind, Keeps-return}
use node_panel.Store.Intact.{Intact}
use node_panel.Store.Nodes.{get_node}
use node_panel.Store.Webhooks.{record_webhook_delivery}
use node_panel.Store.History.{prune_history, history_retention}
use node_panel.NodeClient.{Client, client_for_node}
use node_panel.Webhook.{
  deliver, deliver_from, deliver_with_retry, deliver_all, deliver_listed, dispatch, run_one,
}
use node_panel.Webhook.Filter.{subscribed}
use node_panel.Api.Collector.{
  Wake, collect, prune, stop, cached, keep, reflect, poll, poll_all, collect_usage_once,
  run_usage_collector,
}
use node_panel.Api.Kept.Rules.{handler_rules, Keeps-on_result}
use node_panel.Api.Kept.Sales.{emit_status_event-Keeps, emit_usage_events-Keeps}

List-cases : (q : List Job) → (q ≡ []) ⊎ ((j : Job) × (rest : List Job) × (q ≡ j ∷ rest))
List-cases [] = inl refl
List-cases (j ∷ q) = inr (j, q, refl)

module _ ⦃env : Env⦄ {E : Type 0} where
  reflect-Keeps : (s : Subscription) (uv : UsageView) → Keeps Intact (reflect {E = E} s uv)
  unfolding reflect
  reflect-Keeps s uv =
      search (handler_rules, emit_usage_events-Keeps, emit_status_event-Keeps) depth 9

  poll-Keeps : (c : Client) (s : Subscription) → Keeps Intact (poll {E = E} c s)
  unfolding poll
  poll-Keeps c s = search (handler_rules, reflect-Keeps) depth 7

  poll_all-Keeps :
      (cs : List (String × Client)) (ss : List Subscription) → Keeps Intact (poll_all {E = E} cs ss)
  unfolding poll_all
  poll_all-Keeps cs [] = search handler_rules
  poll_all-Keeps cs (s ∷ ss) = elim (Option-cases (cached s.node_id cs)) [
    | inr (c, e) ↦
        rw (poll_all, e)
          (Keeps-then (poll c s) (poll_all cs ss) (poll-Keeps c s) (poll_all-Keeps cs ss))
    | inl e ↦
        rw (poll_all, e)
          (Keeps-bind (attempt (get_node s.node_id)) _ (search handler_rules) (λ node.
            Keeps-on_result node _ _
              (λ n.
                Keeps-then (poll (client_for_node n) s)
                  (poll_all (keep s.node_id cs (client_for_node n)) ss)
                  (poll-Keeps (client_for_node n) s)
                  (poll_all-Keeps (keep s.node_id cs (client_for_node n)) ss))
              (λ x. poll_all-Keeps cs ss)))
  ]

  collect_usage_once-Keeps : Keeps Intact (collect_usage_once {E = E})
  unfolding collect_usage_once
  collect_usage_once-Keeps = search (handler_rules, poll_all-Keeps) depth 7

  pub run_usage_collector-Keeps : (ws : List Wake) → Keeps Intact (run_usage_collector {E = E} ws)
  unfolding run_usage_collector
  run_usage_collector-Keeps [] = search handler_rules
  run_usage_collector-Keeps (stop ∷ ws) = search handler_rules
  run_usage_collector-Keeps (collect ∷ ws) =
      Keeps-then collect_usage_once (run_usage_collector ws) collect_usage_once-Keeps
        (run_usage_collector-Keeps ws)
  run_usage_collector-Keeps (prune ∷ ws) =
      Keeps-then (ignore (prune_history history_retention)) (run_usage_collector ws)
        (search handler_rules) (run_usage_collector-Keeps ws)

  deliver-Keeps : (ep : WebhookEndpoint) (j : Job) → Keeps Intact (deliver {E = E} ep j)
  unfolding deliver
  deliver-Keeps ep j = record { at = λ w h. h }

  deliver_from-Keeps :
      (left n : ℕ) (ep : WebhookEndpoint) (j : Job)
      → Keeps Intact (deliver_from {E = E} left n ep j)
  unfolding deliver_from
  deliver_from-Keeps zero n ep j = search (handler_rules, deliver-Keeps)
  deliver_from-Keeps (suc left) n ep j =
      let again = deliver_from-Keeps left (n + 1) ep j in
      Keeps-bind (deliver ep j) _ (deliver-Keeps ep j) (λ status.
        Keeps-if (status == "delivered") _ _ (Keeps-return (status, n)) (record {
          at = λ w i. elim (Bool-cases (env.deadline_passed w.tick)) [
            | inl e ↦ rw e i
            | inr e ↦ rw e (again.at (next w) i)
          ];
        }))

  deliver_with_retry-Keeps :
      (ep : WebhookEndpoint) (j : Job) → Keeps Intact (deliver_with_retry {E = E} ep j)
  unfolding deliver_with_retry
  deliver_with_retry-Keeps ep j = deliver_from-Keeps 2 1 ep j

  deliver_all-Keeps :
      (eps : List WebhookEndpoint) (j : Job) → Keeps Intact (deliver_all {E = E} eps j)
  unfolding deliver_all
  deliver_all-Keeps [] j = search handler_rules
  deliver_all-Keeps (ep ∷ eps) j =
      let rest = deliver_all-Keeps eps j in
      Keeps-if (subscribed ep.events j.event) _ _
        (Keeps-bind (deliver_with_retry ep j) _ (deliver_with_retry-Keeps ep j) (λ r.
          Keeps-then (ignore (record_webhook_delivery ep.id j.event j.body r.0 r.1))
            (deliver_all eps j) (search handler_rules) rest))
        rest

  deliver_listed-Keeps :
      (j : Job) (r : Result Err (List WebhookEndpoint)) → Keeps Intact (deliver_listed {E = E} j r)
  deliver_listed-Keeps j (ok eps) = deliver_all-Keeps eps j
  deliver_listed-Keeps j (err e) = search handler_rules

  dispatch-Keeps : (j : Job) → Keeps Intact (dispatch {E = E} j)
  unfolding dispatch
  dispatch-Keeps j = search (handler_rules, deliver_listed-Keeps)

module _ ⦃env : Env⦄ where
  pub Intact-run_one : (w : World) → Intact w.db → Intact (run_one w).db
  unfolding run_one
  Intact-run_one w i = elim (List-cases w.queue) [
    | inl e ↦ rw e i
    | inr (j, q, e) ↦ rw e ((dispatch-Keeps {E = Err} j).at (record w { queue = q }) i)
  ]
