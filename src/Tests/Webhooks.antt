-- ===== src/Tests/Webhooks.antt =====
-- internal/webhook/dispatcher.go on the small panel.
use node_panel.Prelude.{
  some, none, true, ◌⊎◌, ℕ, String, List, [], ◌∷◌, ◌++◌, ◌≡◌, ◌≤◌, ◌<◌, refl, arith, length,
}
use node_panel.Wire.{Job, EventData, status_data}
use node_panel.Prelude.Int.{pos}
use node_panel.Runtime.{World, next}
use node_panel.Runtime.Exec.{Err, ok}
use node_panel.Webhook.{emit, run_one, deliver_with_retry, queue_depth}
use node_panel.Webhook.Delivery.{TriedResult, deliver_with_retry-Tried}
use node_panel.Webhook.Order.{
  Dispatched, run_one-Dispatched, Run, started, accepted, worked, Run-in_order,
}
use node_panel.Webhook.Order.{active_endpoints}
use node_panel.Webhook.Drained.{ServedAll, rounds, rounds-Drained}
use node_panel.Wire.{WebhookRequest}
use node_panel.Domain.{Subscription, Node}
use node_panel.Store.Subscriptions.{select_subscription, has_id}
use node_panel.Wire.{pinned, nothing}
use node_panel.Store.Nodes.{scan_node}
use node_panel.NodeClient.{client_for_node, exchange}
use node_panel.NodeClient.Pinning.{accepts, is_pinned}
use node_panel.NodeClient.Pinned.{Guarded, accepts_anywhere, exchange-Pinned}
use node_panel.Api.Events.{emit_usage_events}
use node_panel.Api.Events.Once.{level_now, Raised, emit_usage_events-Once}
use node_panel.Tests.Fixtures.{demo, answers, panel, consumer, node_row}

abbrev job : Job
job = record { event = "usage.threshold"; body = "usage.threshold" }

abbrev waiting : World
waiting = record panel { queue = job ∷ [] }

abbrev news : EventData
news = status_data (record { customer_id = "c1"; subscription_id = "s1"; status = "active" })

deliver_with_retry-Tried_example :
    TriedResult 2 1 consumer job panel (deliver_with_retry consumer job panel)
deliver_with_retry-Tried_example = deliver_with_retry-Tried consumer job panel

rounds-Drained_example :
    ((rounds 1 waiting).queue ≡ [])
    × ((rounds 1 waiting).sent ≡ waiting.sent)
    × ((posts : List WebhookRequest) × ServedAll (active_endpoints waiting.db) (job ∷ []) posts
        × ((rounds 1 waiting).posted ≡ waiting.posted ++ posts))
rounds-Drained_example = rounds-Drained waiting answers

run_one-Dispatched_example : Dispatched job panel (run_one waiting)
run_one-Dispatched_example = run_one-Dispatched job [] waiting refl

posted_once : length (run_one waiting).posted ≡ 1
unfolding run_one node_panel.Webhook.dispatch node_panel.Store.Webhooks.list_active_webhooks
    node_panel.Webhook.deliver_all node_panel.Webhook.Filter.subscribed
    node_panel.Prelude.Text.trim_space node_panel.Prelude.Text.trim_right
    node_panel.Prelude.Text.trim_left node_panel.Prelude.Text.is_space node_panel.Prelude.Text.split
    deliver_with_retry node_panel.Webhook.deliver node_panel.Store.Webhooks.record_webhook_delivery
posted_once = refl

abbrev emitted : World
emitted = (emit {E = Err} "usage.threshold" news waiting).1

emitted_run : Run waiting (job ∷ []) [] emitted
emitted_run =
    accepted "usage.threshold" "usage.threshold" news [] [] waiting started (omega arith) refl

served_run : Run waiting (job ∷ []) (job ∷ []) (run_one emitted)
unfolding emit
served_run = worked job (job ∷ []) (job ∷ []) [] emitted emitted_run refl

Run-in_order_example :
    (job ∷ job ∷ [] ≡ job ∷ (run_one emitted).queue) × (length (run_one emitted).queue ≤ 512)
Run-in_order_example =
    Run-in_order waiting (omega arith) (job ∷ []) (job ∷ []) (run_one emitted) served_run

abbrev nearly_full : Subscription
nearly_full = record {
  id = "s1";
  customer_id = "c1";
  plan_id = "p1";
  node_id = "n1";
  node_tenant_id = "t1";
  sub_token = "token";
  api_key = "key";
  status = "active";
  period_id = 1;
  start_at = pos 20;
  end_at = pos 2000;
  quota_bytes = pos 1000;
  used_bytes = pos 100;
  credit_limit_bytes = pos 0;
  notified_threshold = 80;
  created_at = pos 20;
}

emit_usage_events-Once_example :
    (((level_now nearly_full (pos 960) ≤ 80)
        × ((emit_usage_events {E = Err} nearly_full (pos 960) panel).1 ≡ panel))
      ⊎ ((80 < level_now nearly_full (pos 960))
          × Raised nearly_full
              (pos 960)
              panel
              (emit_usage_events {E = Err} nearly_full (pos 960) panel).1))
    × ((w2 : World)
        → (emit_usage_events {E = Err}
            (record nearly_full { notified_threshold = level_now nearly_full (pos 960) })
            (pos 960)
            w2).1
          ≡ w2)
    × ((s : Subscription) (w2 : World)
        → demo.db_fault (next panel).tick ≡ none
        → 80 < level_now nearly_full (pos 960)
        → select_subscription
            (has_id "s1")
            (emit_usage_events {E = Err} nearly_full (pos 960) panel).1.db
          ≡ ok s
        → s.quota_bytes ≡ nearly_full.quota_bytes
        → (emit_usage_events {E = Err} s (pos 960) w2).1 ≡ w2)
emit_usage_events-Once_example = emit_usage_events-Once nearly_full (pos 960) panel

accepts_anywhere_example : accepts (pinned "node") ("other" ∷ "node" ∷ []) ≡ true
accepts_anywhere_example = accepts_anywhere "node" ("other" ∷ []) []

abbrev pinned_node : Node
pinned_node = record (scan_node node_row) { cert_pem = "node" }

exchange-Pinned_example :
    (block : String) × (demo.pem_block "node" ≡ some block)
    × Guarded
        (client_for_node pinned_node)
        block
        panel
        (exchange (client_for_node pinned_node) "GET" "/health" nothing panel).1
unfolding is_pinned node_panel.Prelude.Text.trim_space node_panel.Prelude.Text.trim_right
    node_panel.Prelude.Text.trim_left node_panel.Prelude.Text.is_space
exchange-Pinned_example = exchange-Pinned pinned_node "GET" "/health" nothing panel refl
