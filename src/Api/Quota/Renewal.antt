-- ===== src/Api/Quota/Renewal.antt =====
-- `renewSubscription` of internal/api/subscriptions.go: the node first, the row last.
use node_panel.Prelude.{ℕ, String, true, false, [], ◌∷◌, ◌++◌, ◌≡◌, ◌≢◌}
use node_panel.Prelude.Int.{ℤ, pos, add64, mul64, leb_ℤ}
use node_panel.Domain.{Node, Subscription}
use node_panel.Wire.{Sent, SetQuotaRequest}
use node_panel.Runtime.{Env, World}
use node_panel.Runtime.Exec.{ok}
use node_panel.Store.Subscriptions.{select_subscription, has_id, renewed}
use node_panel.Store.Nodes.{select_node}
use node_panel.Store.Updates.{rows_changed}
use node_panel.NodeClient.{client_for_node, push_quota, reset_period}
use node_panel.NodeClient.Calls.{accepted}
use node_panel.NodeClient.TenantCalls.{quota_request, tenant_post}
use node_panel.Api.Response.{Response}

module _ ⦃env : Env⦄ where
  abbrev pub renewal_quota : Subscription → ℤ → SetQuotaRequest
  renewal_quota sub end_at = record {
    quota_bytes = sub.quota_bytes;
    credit_limit_bytes = sub.credit_limit_bytes;
    expire_at = end_at;
  }

  abbrev pub end_after : ℕ → ℤ → ℤ
  end_after t days = add64 (env.clock t) (mul64 days (pos 86400))

  -- The node has reset the tenant's period and taken the new end, in this order.
  abbrev pub Renewed : String → World → Response × World → Type 0
  Renewed id w (r, w') =
      (r.code ≡ 200)
      × (sub : Subscription) × (n : Node) × (t : ℕ) × (days : ℤ) × (s1 : Sent) × (s2 : Sent)
      × (select_subscription (has_id id) w.db ≡ ok sub)
      × (select_node sub.node_id w.db ≡ ok n)
      × (leb_ℤ days (pos 0) ≡ false)
      × (s1.request ≡ tenant_post (client_for_node n) sub.node_tenant_id "/reset")
      × (accepted s1 ≡ true)
      × (s2.request
          ≡ quota_request (client_for_node n) sub.node_tenant_id
              (renewal_quota sub (end_after t days)))
      × (accepted s2 ≡ true)
      × (w'.sent ≡ (w.sent ++ s1 ∷ []) ++ s2 ∷ [])
      × (w'.db ≡ rows_changed sub.id (renewed (end_after t days)) w.db)

  abbrev pub NotRenewed : World → Response × World → Type 0
  NotRenewed w (r, w') = (r.code ≢ 200) × (w'.db ≡ w.db)

  -- from the reset on
  module _ (sub : Subscription) (n : Node) (end_at : ℤ) (w : World) where
    abbrev reset : World
    reset = (reset_period (client_for_node n) sub.node_tenant_id w).1

    abbrev extended : World
    extended =
        (push_quota (client_for_node n) sub.node_tenant_id (renewal_quota sub end_at) reset).1
