-- ===== src/Api/Subscriptions.antt =====
-- internal/api/subscriptions.go: creating, listing, suspending, resuming and deleting a
-- subscription, and `hashKey` and `keyPrefix` of internal/api/keys.go.
pub mod Removal
pub mod Provision
pub mod Creation
pub mod Switching
pub mod Switched
use Prim.Native.String
use node_panel.Prelude.{String, Option, ◌==◌, leb, if◌then◌else◌}
use node_panel.Prelude.Int.{ℤ, pos, add64, mul64}
use node_panel.Prelude.Text.{◌<>◌, is_empty}
use node_panel.Domain.{Customer, Plan, Node, Subscription}
use node_panel.Wire.{CreateTenantRequest}
use node_panel.Runtime.{Env}
use node_panel.Runtime.Exec.{
  Err, error_text, ok, err, Exec, ◌>>=◌, ◌>>◌, return, raise, or_else, attempt, ignore, on_result,
  new_uuid, unix_now,
}
use node_panel.Store.Customers.{get_customer}
use node_panel.Store.Plans.{get_plan}
use node_panel.Store.Nodes.{get_node}
use node_panel.Store.Subscriptions.{
  create_subscription, get_subscription, list_subscriptions_by_customer, update_subscription_status,
  create_api_key, delete_subscription,
}
use node_panel.NodeClient.{Client, client_for_node, provision_tenant, suspend, resume, delete}
use node_panel.Api.Response.{
  Response, Handler, respond, write_error, no_content, not_found_or_500, decoded, created,
  subscription, subscriptions,
}
use node_panel.Api.Events.{emit_status_event}

pub record CreateSubscriptionRequest : Type 0 where
  pub plan_id : String
  pub node_id : String
  pub credit_limit_bytes : ℤ

abbrev bad_gateway : String → Err → Response
bad_gateway prefix e = write_error 502 (prefix <> error_text e)

-- the first eight bytes
unfoldable pub key_prefix : String → String
key_prefix key = if leb (String.len key) 8 then key else String.slice key 0 8

abbrev pub tenant_request : Plan → ℤ → ℤ → String → String → CreateTenantRequest
tenant_request plan credit end_at raw_key tenant_id = record {
  id = tenant_id;
  api_key = raw_key;
  quota_bytes = plan.quota_bytes;
  credit_limit_bytes = credit;
  expire_at = end_at;
  period_id = 0;
}

-- The literal of `createSubscription`; the fields that it leaves out are zero.
abbrev pub new_subscription : Customer → Plan → Node → ℤ → ℤ → ℤ → String → String → Subscription
new_subscription customer plan node credit now end_at raw_key tenant_id = record {
  id = "";
  customer_id = customer.id;
  plan_id = plan.id;
  node_id = node.id;
  node_tenant_id = tenant_id;
  sub_token = "";
  api_key = raw_key;
  status = "active";
  period_id = 1;
  start_at = now;
  end_at = end_at;
  quota_bytes = plan.quota_bytes;
  used_bytes = pos 0;
  credit_limit_bytes = credit;
  notified_threshold = 0;
  created_at = pos 0;
}

module _ ⦃env : Env⦄ where
  abbrev store_keyed : Subscription → String → Exec Err (Unit {0})
  store_keyed sub raw_key =
      create_api_key sub.customer_id (env.sha256_hex raw_key) (key_prefix raw_key)

  -- `rollbackTenant`
  abbrev roll_back : Client → String → Exec Response (Unit {0})
  roll_back c tenant_id = ignore (delete c tenant_id)

  abbrev created_response : Subscription → String → String → Response
  created_response sub raw_key address = respond 201 (
      created (record {
        subscription = sub;
        api_key = raw_key;
        node_address = address;
        sub_token = sub.sub_token;
      }))

  -- What follows the tenant's creation on the node: two rows, or the tenant is deleted again.
  unfoldable pub persist : Client → Subscription → String → String → Handler
  persist c sub raw_key address = do
    stored ← attempt (create_subscription sub)
    on_result stored
        (λ sub'. (do
          keyed ← attempt (store_keyed sub raw_key)
          on_result keyed (λ _. return (created_response sub' raw_key address))
              (λ e. (do
                roll_back c sub.node_tenant_id
                ignore (delete_subscription sub'.id)
                raise (write_error 500 "failed to store api key")))))
        (λ e. (do
          roll_back c sub.node_tenant_id
          raise (write_error 500 "failed to store subscription")))

  -- from the clock's reading on
  unfoldable pub provision : Customer → Plan → Node → CreateSubscriptionRequest → Handler
  provision customer plan node req = do
    now ← unix_now
    let end_at = add64 now (mul64 plan.duration_days (pos 86400))
    raw_key ← new_uuid
    tenant_id ← new_uuid
    or_else
        (provision_tenant (client_for_node node)
          (tenant_request plan req.credit_limit_bytes end_at raw_key tenant_id))
        (bad_gateway "failed to provision tenant on node: ")
    persist (client_for_node node)
        (new_subscription customer plan node req.credit_limit_bytes now end_at raw_key tenant_id)
        raw_key node.address

  unfoldable pub create_subscription_handler : String → Option CreateSubscriptionRequest → Handler
  create_subscription_handler customer_id body = do
    req ← decoded body (write_error 400 "invalid json body")
    customer ← or_else (get_customer customer_id) (λ _. write_error 404 "customer not found")
    plan ← or_else (get_plan req.plan_id) (λ _. write_error 400 "plan not found")
    node ← or_else (get_node req.node_id) (λ _. write_error 400 "node not found")
    provision customer plan node req

  unfoldable pub list_subscriptions : String → Handler
  list_subscriptions customer_id = do
    subs ←
        or_else (list_subscriptions_by_customer customer_id)
          (λ _. write_error 500 "failed to list subscriptions")
    return (respond 200 (subscriptions subs))

  unfoldable pub load_sub_and_node : String → Exec Response (Subscription × Node)
  load_sub_and_node id = do
    sub ← or_else (get_subscription id) (λ _. write_error 404 "subscription not found")
    node ← or_else (get_node sub.node_id) (λ _. write_error 500 "subscription node missing")
    return (sub, node)

  unfoldable pub switch_tenant : String → Client → String → Exec Err (Unit {0})
  switch_tenant target c tenant_id =
      if target == "suspended" then suspend c tenant_id else resume c tenant_id

  unfoldable pub subscription_lifecycle : String → String → Handler
  unfolding load_sub_and_node
  subscription_lifecycle target id = do
    (sub, node) ← load_sub_and_node id
    or_else (switch_tenant target (client_for_node node) sub.node_tenant_id)
        (bad_gateway "node error: ")
    or_else (update_subscription_status sub.id target)
        (λ _. write_error 500 "failed to update status")
    let changed : Subscription = record sub { status = target }
    emit_status_event changed target
    return (respond 200 (subscription changed))

  unfoldable pub suspend_subscription : String → Handler
  unfolding subscription_lifecycle
  suspend_subscription = subscription_lifecycle "suspended"

  unfoldable pub resume_subscription : String → Handler
  unfolding subscription_lifecycle
  resume_subscription = subscription_lifecycle "active"

  -- the node's side of `deleteSubscription`
  unfoldable pub deprovision : Subscription → Exec Response (Unit {0})
  deprovision sub = if is_empty sub.node_tenant_id then return tt else (do
    node ←
        or_else (get_node sub.node_id)
          (bad_gateway "cannot reach the node record to deprovision this subscription: ")
    or_else (delete (client_for_node node) sub.node_tenant_id)
        (bad_gateway "node refused to remove the tenant, so the subscription was kept: "))

  unfoldable pub delete_subscription_handler : String → Handler
  delete_subscription_handler id = do
    sub ← or_else (get_subscription id) not_found_or_500
    deprovision sub
    or_else (delete_subscription id) not_found_or_500
    return no_content
