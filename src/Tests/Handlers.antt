-- ===== src/Tests/Handlers.antt =====
-- The handlers of internal/api that change what exists, on the small panel.
use node_panel.Prelude.{arith, subst, some, ◌≡◌, refl, ◌⊎◌, true, some-injective}
use node_panel.Prelude.Int.{ℤ, pos, in_int64, ◌+ℤ◌}
use node_panel.Store.Quota.{SoundRows}
use node_panel.Api.Response.{serve}
use node_panel.Api.Subscriptions.{subscription_lifecycle}
use node_panel.Api.Subscriptions.Switching.{Switched}
use node_panel.Api.Lifecycle.{delete_customer_handler, delete_node_handler, delete_plan_handler}
use node_panel.Api.Lifecycle.Deletion.{
  CustomerGone, NodeGone, PlanGone, Refused, delete_customer_handler-Gone, delete_node_handler-Gone,
  delete_plan_handler-Gone,
}
use node_panel.Api.Quota.{topup_quota, renew_subscription_handler}
use node_panel.Api.Quota.Topup.{ToppedUp, NotToppedUp}
use node_panel.Api.Quota.Settled.{Fits, topup_quota-Settled}
use node_panel.Api.Catalogue.{CreatePlanRequest, create_plan_handler}
use node_panel.Api.Catalogue.Sold.{PlanAdded, NoPlan, create_plan_handler-Sellable}
use node_panel.Tests.Fixtures.{demo, panel}

suspended : (serve (subscription_lifecycle "suspended" "s1") panel).0.code ≡ 200
unfolding subscription_lifecycle node_panel.Store.Subscriptions.get_subscription
    node_panel.Store.Subscriptions.scan_subscription node_panel.Store.Nodes.get_node
    node_panel.Api.Subscriptions.switch_tenant node_panel.NodeClient.suspend
    node_panel.Store.Subscriptions.update_subscription_status
    node_panel.Api.Events.emit_status_event node_panel.Webhook.emit
suspended = refl

delete_customer_handler-Gone_example :
    CustomerGone "c1" panel (serve (delete_customer_handler "c1") panel)
    ⊎ Refused panel (serve (delete_customer_handler "c1") panel)
delete_customer_handler-Gone_example = delete_customer_handler-Gone "c1" panel refl

customer_gone : (serve (delete_customer_handler "c1") panel).0.code ≡ 204
unfolding delete_customer_handler node_panel.Store.Subscriptions.list_subscriptions_by_customer
    node_panel.Store.Subscriptions.scan_all node_panel.Store.Subscriptions.scan_subscription
    node_panel.Api.Lifecycle.delete_tenants node_panel.Store.Nodes.get_node
    node_panel.NodeClient.delete node_panel.Store.Customers.delete_customer
customer_gone = refl

delete_node_handler-Gone_example :
    NodeGone "n1" panel (serve (delete_node_handler "n1") panel)
    ⊎ Refused panel (serve (delete_node_handler "n1") panel)
delete_node_handler-Gone_example = delete_node_handler-Gone "n1" panel

node_kept : (serve (delete_node_handler "n1") panel).0.code ≡ 409
unfolding delete_node_handler node_panel.Store.Subscriptions.count_subscriptions_by_node
node_kept = refl

delete_plan_handler-Gone_example :
    PlanGone "p1" panel (serve (delete_plan_handler "p1") panel)
    ⊎ Refused panel (serve (delete_plan_handler "p1") panel)
delete_plan_handler-Gone_example = delete_plan_handler-Gone "p1" panel refl

plan_kept : (serve (delete_plan_handler "p1") panel).0.code ≡ 500
unfolding delete_plan_handler node_panel.Store.Plans.delete_plan
plan_kept = refl

Fits-500 : Fits "s1" (some (pos 500)) panel
unfolding ◌+ℤ◌
Fits-500 n h =
    subst (λ n. (in_int64 n ≡ true) × SoundRows "s1" n panel.db) (some-injective (pos 500) n h)
      (
        refl,
        (
          (λ p. record {
            reads = refl;
            old_nonneg = omega arith;
            fits = refl;
            new_nonneg = omega arith;
          }),
          tt,
        ),
      )

topup_quota-Settled_example :
    ((add : ℤ) × (some (pos 500) ≡ some add)
      × ToppedUp "s1" add panel (serve (topup_quota "s1" (some (pos 500))) panel))
    ⊎ NotToppedUp panel (serve (topup_quota "s1" (some (pos 500))) panel)
topup_quota-Settled_example = topup_quota-Settled (λ t. refl) "s1" (some (pos 500)) panel Fits-500

renewed_once : (serve (renew_subscription_handler "s1") panel).0.code ≡ 200
unfolding renew_subscription_handler node_panel.Store.Subscriptions.get_subscription
    node_panel.Store.Subscriptions.scan_subscription node_panel.Store.Nodes.get_node
    node_panel.NodeClient.reset_period node_panel.NodeClient.push_quota
    node_panel.Store.Subscriptions.renew_subscription node_panel.Store.Plans.get_plan
renewed_once = refl

abbrev offer : CreatePlanRequest
offer = record { name = "big"; quota_bytes = pos 5000; duration_days = pos 30; max_users = pos 0 }

create_plan_handler-Sellable_example :
    PlanAdded panel (serve (create_plan_handler (some offer)) panel)
    ⊎ NoPlan panel (serve (create_plan_handler (some offer)) panel)
create_plan_handler-Sellable_example = create_plan_handler-Sellable (some offer) panel

offered : (serve (create_plan_handler (some offer)) panel).0.code ≡ 201
unfolding create_plan_handler node_panel.Prelude.Text.trim_space node_panel.Prelude.Text.trim_right
    node_panel.Prelude.Text.trim_left node_panel.Prelude.Text.is_space
    node_panel.Store.Plans.create_plan
offered = refl
