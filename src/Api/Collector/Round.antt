-- ===== src/Api/Collector/Round.antt =====
-- A round of the usage collector of internal/api/collector.go, and its loop: whatever the nodes
-- report, only the reflected columns of a subscription change.
use node_panel.Prelude.{
  String, List, [], ◌∷◌, ◌≡◌, inl, inr, refl, arith, Bool-cases, Option-cases, not, ◌&&◌, ◌==◌,
}
use node_panel.Prelude.Int.{ℤ}
use node_panel.Prelude.Text.{is_empty}
use node_panel.Domain.{Subscription}
use node_panel.Wire.{UsageView}
use node_panel.Runtime.{Env, World, next}
use node_panel.Runtime.Exec.{Err, Result-cases}
use node_panel.Store.Nodes.{get_node}
use node_panel.Store.Subscriptions.{
  list_active_subscriptions, update_subscription_usage, update_subscription_status,
}
use node_panel.Store.History.{record_usage, prune_history, history_retention}
use node_panel.Store.Effects.{next-get_node}
use node_panel.NodeClient.{Client, client_for_node, tenant_usage}
use node_panel.Api.Events.{emit_usage_events}
use node_panel.Api.Collector.{
  reflect, poll, poll_all, cached, keep, collect_usage_once, run_usage_collector, Wake, collect,
  prune, stop,
}
use node_panel.Api.Collector.Terms.{
  SameTerms, SameTerms-trans, same_db, Harmless, usage_lem, status_lem, record_lem,
  tenant_usage_lem, usage_events_lem, status_event_lem,
}

module _ ⦃env : Env⦄ where
  reflect_lem : (sub : Subscription) (uv : UsageView) (w : World) → Harmless (reflect sub uv) w
  unfolding reflect
  reflect_lem sub uv w =
      let w1 = (update_subscription_usage sub.id uv.used_bytes w).1 in
      let w2 = (record_usage sub.node_tenant_id sub.node_id uv.period_id uv.used_bytes w1).1 in
      let w3 = (emit_usage_events {E = Err} sub uv.used_bytes w2).1 in
      let w4 = (update_subscription_status sub.id uv.status w3).1 in
      let (told, events) = usage_events_lem sub uv.used_bytes w2 in
      let until = SameTerms-trans (usage_lem sub.id uv.used_bytes w) (
        SameTerms-trans (record_lem sub.node_tenant_id sub.node_id uv.period_id uv.used_bytes w1)
          events) in
      elim (Bool-cases (not (is_empty uv.status) && not (uv.status == sub.status))) [
        | inl e ↦
            let (done, last) = status_event_lem sub uv.status w4 in
            rw (told, e)
              (done, SameTerms-trans until (SameTerms-trans (status_lem sub.id uv.status w3) last))
        | inr e ↦ rw (told, e) (refl, until)
      ]

  poll_lem : (c : Client) (sub : Subscription) (w : World) → Harmless (poll c sub) w
  unfolding poll
  poll_lem c sub w = elim (Result-cases (tenant_usage c sub.node_tenant_id w).0) [
    | inr (e, h) ↦ rw h (refl, tenant_usage_lem c sub.node_tenant_id w)
    | inl (uv, h) ↦
        let w1 = (tenant_usage c sub.node_tenant_id w).1 in
        let (done, kept) = reflect_lem sub uv w1 in
        rw h (done, SameTerms-trans (tenant_usage_lem c sub.node_tenant_id w) kept)
  ]

  poll_all_lem :
      (clients : List (String × Client)) (subs : List Subscription) (w : World)
      → Harmless (poll_all clients subs) w
  unfolding poll_all
  poll_all_lem clients [] w = (refl, same_db refl)
  poll_all_lem clients (sub ∷ subs) w = elim (Option-cases (cached sub.node_id clients)) [
    | inr (c, e) ↦
        let (done, kept) = poll_lem c sub w in
        let (all, rest) = poll_all_lem clients subs (poll {E = Err} c sub w).1 in
        rw (poll_all, e) (rw done (all, SameTerms-trans kept rest))
    | inl e ↦
        rw (poll_all, e)
          (elim (Result-cases (get_node sub.node_id w).0) [
            | inr (x, h) ↦
                let (all, rest) = poll_all_lem clients subs (next w) in
                rw (h, next-get_node sub.node_id w) (all, SameTerms-trans (same_db refl) rest)
            | inl (n, h) ↦
                let c = client_for_node n in
                let (done, kept) = poll_lem c sub (next w) in
                let (all, rest) =
                  poll_all_lem (keep sub.node_id clients c) subs
                    (poll {E = Err} c sub (next w)).1 in
                rw (h, next-get_node sub.node_id w, done)
                  (all, SameTerms-trans (same_db refl) (SameTerms-trans kept rest))
          ])
  ]

  list_lem : (w : World) → (list_active_subscriptions w).1 ≡ next w
  unfolding list_active_subscriptions
  list_lem w = ground arith

  round_lem : (w : World) → Harmless collect_usage_once w
  unfolding collect_usage_once
  round_lem w = elim (Result-cases (list_active_subscriptions w).0) [
    | inr (e, h) ↦ rw (h, list_lem w) (refl, same_db refl)
    | inl (subs, h) ↦
        rw (h, list_lem w)
          (let (all, rest) = poll_all_lem [] subs (next w) in
            (all, SameTerms-trans (same_db refl) rest))
  ]

  prune_lem : (r : ℤ) (w : World) → SameTerms w (prune_history r w).1
  unfolding prune_history
  prune_lem r w = ground arith

  -- Whatever the nodes report and however often the collector wakes up, it does not fail, and
  -- every subscription keeps its row and its terms (quota, credit, period, end, node, tenant,
  -- key); customers, plans, nodes, keys and endpoints stay as they are.
  pub run_usage_collector-SameTerms :
      (wakes : List Wake) (w : World) → Harmless (run_usage_collector wakes) w
  unfolding run_usage_collector
  run_usage_collector-SameTerms [] w = (refl, same_db refl)
  run_usage_collector-SameTerms (stop ∷ wakes) w = (refl, same_db refl)
  run_usage_collector-SameTerms (collect ∷ wakes) w =
      let (done, kept) = round_lem w in
      let (all, rest) = run_usage_collector-SameTerms wakes (collect_usage_once {E = Err} w).1 in
      rw done (all, SameTerms-trans kept rest)
  run_usage_collector-SameTerms (prune ∷ wakes) w =
      let (all, rest) = run_usage_collector-SameTerms wakes (prune_history history_retention w).1 in
      (all, SameTerms-trans (prune_lem history_retention w) rest)
