-- ===== src/Api/Lifecycle.antt =====
-- internal/api/lifecycle.go, with `deleteNode` of internal/api/nodes.go.
pub mod Deprovision
pub mod Deletion
pub mod Toggled
use node_panel.Prelude.{String, List, [], ◌∷◌, Bool, true, false, ltb, if◌then◌else◌}
use node_panel.Prelude.Text.{◌<>◌, is_empty, decimal}
use node_panel.Domain.{Node, Subscription}
use node_panel.Runtime.{Env}
use node_panel.Runtime.Exec.{
  Err, error_text, Result, ok, err, Exec, ◌>>=◌, ◌>>◌, return, raise, or_else, attempt, ignore,
}
use node_panel.Store.Customers.{get_customer, delete_customer, set_customer_status}
use node_panel.Store.Plans.{delete_plan}
use node_panel.Store.Nodes.{get_node, delete_node}
use node_panel.Store.Subscriptions.{
  list_subscriptions_by_customer, update_subscription_status, count_subscriptions_by_node,
}
use node_panel.NodeClient.{client_for_node, suspend, resume, delete}
use node_panel.Api.Response.{
  Response, Handler, respond, write_error, no_content, not_found_or_500, customer,
}

module _ ⦃env : Env⦄ where
  unfoldable pub delete_plan_handler : String → Handler
  delete_plan_handler id = do or_else (delete_plan id) not_found_or_500; return no_content

  abbrev pub delete_tenant : Subscription → Exec Response (Unit {0})
  delete_tenant s = do
    node ← or_else (get_node s.node_id) (λ e. write_error 502 (
        "cannot load node "
        <> s.node_id
        <> " to deprovision subscription "
        <> s.id
        <> ": "
        <> error_text e))
    or_else (delete (client_for_node node) s.node_tenant_id) (λ e. write_error 502 (
        "node refused to remove the tenant for subscription "
        <> s.id
        <> ", so the customer was kept: "
        <> error_text e))

  -- the loop of `deleteCustomer`
  unfoldable pub delete_tenants : List Subscription → Exec Response (Unit {0})
  delete_tenants [] = return tt
  delete_tenants (s ∷ ss) =
      let rest = delete_tenants ss in
      if is_empty s.node_tenant_id then rest else (do delete_tenant s; rest)

  unfoldable pub delete_customer_handler : String → Handler
  delete_customer_handler id = do
    subs ←
        or_else (list_subscriptions_by_customer id)
          (λ e. write_error 500 ("failed to list subscriptions: " <> error_text e))
    delete_tenants subs
    or_else (delete_customer id) not_found_or_500
    return no_content

  abbrev pub toggle_tenant : Bool → Subscription → Node → Exec Response (Unit {0})
  toggle_tenant true s node = do
    ignore (resume (client_for_node node) s.node_tenant_id)
    ignore (update_subscription_status s.id "active")
  toggle_tenant false s node = do
    ignore (suspend (client_for_node node) s.node_tenant_id)
    ignore (update_subscription_status s.id "suspended")

  abbrev pub toggle_loaded : Bool → Subscription → Result Err Node → Exec Response (Unit {0})
  toggle_loaded enable s (err e) = return tt
  toggle_loaded enable s (ok node) =
      if is_empty s.node_tenant_id then return tt else toggle_tenant enable s node

  -- the loop of `toggleCustomer`
  unfoldable pub toggle_all : Bool → List Subscription → Exec Response (Unit {0})
  toggle_all enable [] = return tt
  toggle_all enable (s ∷ ss) = do
    node ← attempt (get_node s.node_id)
    toggle_loaded enable s node
    toggle_all enable ss

  abbrev pub listed : Result Err (List Subscription) → List Subscription
  listed (ok subs) = subs
  listed (err e) = []

  unfoldable pub toggle_customer : Bool → String → Handler
  toggle_customer enable id = do
    subs ← attempt (list_subscriptions_by_customer id)
    toggle_all enable (listed subs)
    or_else (set_customer_status id (if enable then "active" else "disabled")) not_found_or_500
    cust ← or_else (get_customer id) not_found_or_500
    return (respond 200 (customer cust))

  unfoldable pub enable_customer : String → Handler
  unfolding toggle_customer
  enable_customer = toggle_customer true

  unfoldable pub disable_customer : String → Handler
  unfolding toggle_customer
  disable_customer = toggle_customer false

  unfoldable pub delete_node_handler : String → Handler
  delete_node_handler id = do
    n ←
        or_else (count_subscriptions_by_node id)
          (λ e. write_error 500 ("failed to check node subscriptions: " <> error_text e))
    if ltb 0 n
        then raise
            (write_error 409 ("node has " <> decimal n <> " subscription(s); delete them first"))
        else return tt
    or_else (delete_node id) not_found_or_500
    return no_content
