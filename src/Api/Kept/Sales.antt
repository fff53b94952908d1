-- ===== src/Api/Kept/Sales.antt =====
-- internal/api/subscriptions.go and lifecycle.go.
use node_panel.Prelude.{String, Option, none, some, List, [], ◌∷◌, Bool, true, false, arith}
use node_panel.Prelude.Int.{ℤ}
use node_panel.Wire.{EventData}
use node_panel.Domain.{Customer, Plan, Node, Subscription}
use node_panel.Runtime.{Env}
use node_panel.Runtime.Exec.{Err, Result, ok, err, ◌>>◌, attempt}
use node_panel.Prelude.Text.{is_empty}
use node_panel.Store.Nodes.{get_node}
use node_panel.Runtime.Exec.Keeps.{Keeps, Keeps-if, Keeps-then, Keeps-bind}
use node_panel.Store.Intact.{Intact}
use node_panel.NodeClient.{Client}
use node_panel.Webhook.{emit}
use node_panel.Api.Events.{emit_status_event, emit_any, emit_usage_events}
use node_panel.Api.Subscriptions.{
  CreateSubscriptionRequest, persist, provision, create_subscription_handler, list_subscriptions,
  switch_tenant, subscription_lifecycle, suspend_subscription, resume_subscription, deprovision,
  delete_subscription_handler,
}
use node_panel.Api.Quota.{
  positive_bytes, push_new_quota, topup_quota, customer_usage, renew_subscription_handler,
}
use node_panel.Api.Lifecycle.{
  delete_plan_handler, delete_tenant, delete_tenants, delete_customer_handler, toggle_tenant,
  toggle_loaded, toggle_all, toggle_customer, enable_customer, disable_customer,
  delete_node_handler,
}
use node_panel.Api.Kept.Rules.{handler_rules}
use node_panel.Api.Kept.Simple.{load_sub_and_node-Keeps}

module _ ⦃env : Env⦄ where
  module _ {E : Type 0} where
    pub emit-Keeps : (event : String) (d : EventData) → Keeps Intact (emit {E = E} event d)
    unfolding emit
    emit-Keeps event d = record { at = λ w h. ground (arith, h) }

    emit_any-Keeps : (o : Option String) (d : EventData) → Keeps Intact (emit_any {E = E} o d)
    emit_any-Keeps none d = search handler_rules
    emit_any-Keeps (some e) d = emit-Keeps e d

    pub emit_status_event-Keeps :
        (s : Subscription) (status : String) → Keeps Intact (emit_status_event {E = E} s status)
    unfolding emit_status_event
    emit_status_event-Keeps s status = emit_any-Keeps _ _

    pub emit_usage_events-Keeps :
        (s : Subscription) (used : ℤ) → Keeps Intact (emit_usage_events {E = E} s used)
    unfolding emit_usage_events
    emit_usage_events-Keeps s used = search (handler_rules, emit-Keeps)

  pub persist-Keeps :
      (c : Client) (s : Subscription) (raw address : String)
      → Keeps Intact (persist c s raw address)
  unfolding persist
  persist-Keeps c s raw address = search handler_rules depth 12

  pub provision-Keeps :
      (c : Customer) (p : Plan) (n : Node) (r : CreateSubscriptionRequest)
      → Keeps Intact (provision c p n r)
  unfolding provision
  provision-Keeps c p n r = search (handler_rules, persist-Keeps) depth 9

  pub create_subscription_handler-Keeps :
      (id : String) (o : Option CreateSubscriptionRequest)
      → Keeps Intact (create_subscription_handler id o)
  unfolding create_subscription_handler
  create_subscription_handler-Keeps id o = search (handler_rules, provision-Keeps) depth 9

  pub list_subscriptions-Keeps : (id : String) → Keeps Intact (list_subscriptions id)
  unfolding list_subscriptions
  list_subscriptions-Keeps id = search handler_rules

  pub switch_tenant-Keeps :
      (target : String) (c : Client) (t : String) → Keeps Intact (switch_tenant target c t)
  unfolding switch_tenant
  switch_tenant-Keeps target c t = search handler_rules

  pub subscription_lifecycle-Keeps :
      (target id : String) → Keeps Intact (subscription_lifecycle target id)
  unfolding subscription_lifecycle
  subscription_lifecycle-Keeps target id =
      search (handler_rules, load_sub_and_node-Keeps, switch_tenant-Keeps, emit_status_event-Keeps)
        depth 9

  pub suspend_subscription-Keeps : (id : String) → Keeps Intact (suspend_subscription id)
  unfolding suspend_subscription
  suspend_subscription-Keeps id = subscription_lifecycle-Keeps "suspended" id

  pub resume_subscription-Keeps : (id : String) → Keeps Intact (resume_subscription id)
  unfolding resume_subscription
  resume_subscription-Keeps id = subscription_lifecycle-Keeps "active" id

  pub deprovision-Keeps : (s : Subscription) → Keeps Intact (deprovision s)
  unfolding deprovision
  deprovision-Keeps s = search handler_rules depth 7

  pub delete_subscription_handler-Keeps :
      (id : String) → Keeps Intact (delete_subscription_handler id)
  unfolding delete_subscription_handler
  delete_subscription_handler-Keeps id = search (handler_rules, deprovision-Keeps) depth 7

  positive_bytes-Keeps : (o : Option ℤ) → Keeps Intact (positive_bytes o)
  positive_bytes-Keeps none = search handler_rules
  positive_bytes-Keeps (some n) = search handler_rules

  pub push_new_quota-Keeps :
      (s : Subscription) (n : Node) (add quota : ℤ) → Keeps Intact (push_new_quota s n add quota)
  push_new_quota-Keeps s n add quota = search handler_rules depth 9

  pub topup_quota-Keeps : (id : String) (o : Option ℤ) → Keeps Intact (topup_quota id o)
  unfolding topup_quota
  topup_quota-Keeps id o =
      search (handler_rules, load_sub_and_node-Keeps, positive_bytes-Keeps, push_new_quota-Keeps)
        depth 12

  pub customer_usage-Keeps : (id : String) → Keeps Intact (customer_usage id)
  unfolding customer_usage
  customer_usage-Keeps id = search handler_rules depth 7

  pub renew_subscription_handler-Keeps :
      (id : String) → Keeps Intact (renew_subscription_handler id)
  unfolding renew_subscription_handler
  renew_subscription_handler-Keeps id = search (handler_rules, load_sub_and_node-Keeps) depth 12

  pub delete_plan_handler-Keeps : (id : String) → Keeps Intact (delete_plan_handler id)
  unfolding delete_plan_handler
  delete_plan_handler-Keeps id = search handler_rules

  pub delete_tenant-Keeps : (s : Subscription) → Keeps Intact (delete_tenant s)
  delete_tenant-Keeps s = search handler_rules depth 7

  delete_tenants-Keeps : (ss : List Subscription) → Keeps Intact (delete_tenants ss)
  unfolding delete_tenants
  delete_tenants-Keeps [] = search handler_rules
  delete_tenants-Keeps (s ∷ ss) =
      let rest = delete_tenants-Keeps ss in
      Keeps-if (is_empty s.node_tenant_id) (delete_tenants ss)
        (delete_tenant s >> delete_tenants ss) rest
        (Keeps-then (delete_tenant s) (delete_tenants ss) (delete_tenant-Keeps s) rest)

  pub delete_customer_handler-Keeps : (id : String) → Keeps Intact (delete_customer_handler id)
  unfolding delete_customer_handler
  delete_customer_handler-Keeps id = search (handler_rules, delete_tenants-Keeps) depth 9

  toggle_tenant-Keeps :
      (b : Bool) (s : Subscription) (n : Node) → Keeps Intact (toggle_tenant b s n)
  toggle_tenant-Keeps true s n = search handler_rules depth 7
  toggle_tenant-Keeps false s n = search handler_rules depth 7

  toggle_loaded-Keeps :
      (b : Bool) (s : Subscription) (r : Result Err Node) → Keeps Intact (toggle_loaded b s r)
  toggle_loaded-Keeps b s (err e) = search handler_rules
  toggle_loaded-Keeps b s (ok n) = search (handler_rules, toggle_tenant-Keeps)

  toggle_all-Keeps : (b : Bool) (ss : List Subscription) → Keeps Intact (toggle_all b ss)
  unfolding toggle_all
  toggle_all-Keeps b [] = search handler_rules
  toggle_all-Keeps b (s ∷ ss) =
      Keeps-bind (attempt (get_node s.node_id)) (λ node. toggle_loaded b s node >> toggle_all b ss)
        (search handler_rules)
        (λ node.
          Keeps-then (toggle_loaded b s node) (toggle_all b ss) (toggle_loaded-Keeps b s node)
            (toggle_all-Keeps b ss))

  pub toggle_customer-Keeps : (b : Bool) (id : String) → Keeps Intact (toggle_customer b id)
  unfolding toggle_customer
  toggle_customer-Keeps b id = search (handler_rules, toggle_all-Keeps) depth 9

  pub enable_customer-Keeps : (id : String) → Keeps Intact (enable_customer id)
  unfolding enable_customer
  enable_customer-Keeps id = toggle_customer-Keeps true id

  pub disable_customer-Keeps : (id : String) → Keeps Intact (disable_customer id)
  unfolding disable_customer
  disable_customer-Keeps id = toggle_customer-Keeps false id

  pub delete_node_handler-Keeps : (id : String) → Keeps Intact (delete_node_handler id)
  unfolding delete_node_handler
  delete_node_handler-Keeps id = search handler_rules depth 9
