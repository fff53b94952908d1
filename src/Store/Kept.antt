-- ===== src/Store/Kept.antt =====
-- The calls of internal/store and the integrity of the tables.
use node_panel.Prelude.{ℕ, String}
use node_panel.Prelude.Int.{ℤ}
use node_panel.Domain.{Subscription}
use node_panel.Runtime.{Env}
use node_panel.Runtime.Exec.Keeps.{Keeps, keeps_rules, Keeps-statement, Keeps-query}
use node_panel.Store.Customers.{
  create_customer, list_customers, get_customer, delete_customer, set_customer_status,
}
use node_panel.Store.Plans.{create_plan, list_plans, get_plan, delete_plan}
use node_panel.Store.Nodes.{
  NodeUpdate, create_node, get_node, list_nodes, update_node, update_node_health,
  update_node_config, delete_node,
}
use node_panel.Store.Subscriptions.{
  create_subscription, new_sub_token, get_subscription, get_subscription_by_token,
  list_subscriptions_by_customer, list_active_subscriptions, update_subscription_usage,
  update_subscription_status, update_subscription_notified, add_subscription_quota,
  count_subscriptions_by_node, create_api_key, delete_subscription, renew_subscription,
}
use node_panel.Store.History.{record_usage, prune_history}
use node_panel.Store.Webhooks.{
  create_webhook, list_webhooks, list_active_webhooks, record_webhook_delivery,
}
use node_panel.Store.Intact.{Intact}
use node_panel.Store.Intact.Inserted.{
  insert_customer-Allows, insert_plan-Allows, insert_node-Allows, insert_usage-Allows,
  insert_webhook-Allows, insert_delivery-Allows, insert_key-Allows, insert_subscription-Allows,
}
use node_panel.Store.Intact.Removed.{
  remove_subscription-Allows, remove_customer-Allows, remove_plan-Allows, remove_node-Allows,
  prune_usage-Allows, prune_deliveries-Allows,
}
use node_panel.Store.Intact.Changed.{
  replace_usage-SameKeys, replace_status-SameKeys, replace_notified-SameKeys, renewed-SameKeys,
  raise_quota-SameKeys, subscription_update-Allows, node_update-Allows, mark_customer-Allows,
}

ruleset store_rules = (keeps_rules, Keeps-statement, Keeps-query)

module _ ⦃env : Env⦄ where
  pub create_customer-Keeps : (name ref : String) → Keeps Intact (create_customer name ref)
  unfolding create_customer
  create_customer-Keeps name ref = search (store_rules, insert_customer-Allows)

  pub list_customers-Keeps : Keeps Intact list_customers
  unfolding list_customers
  list_customers-Keeps = search (store_rules)

  pub get_customer-Keeps : (id : String) → Keeps Intact (get_customer id)
  unfolding get_customer
  get_customer-Keeps id = search (store_rules)

  pub delete_customer-Keeps : (id : String) → Keeps Intact (delete_customer id)
  unfolding delete_customer
  delete_customer-Keeps id = search (store_rules, remove_customer-Allows)

  pub set_customer_status-Keeps :
      (id status : String) → Keeps Intact (set_customer_status id status)
  unfolding set_customer_status
  set_customer_status-Keeps id status = search (store_rules, mark_customer-Allows)

  pub create_plan-Keeps : (name : String) (q d m : ℤ) → Keeps Intact (create_plan name q d m)
  unfolding create_plan
  create_plan-Keeps name q d m = search (store_rules, insert_plan-Allows)

  pub list_plans-Keeps : Keeps Intact list_plans
  unfolding list_plans
  list_plans-Keeps = search (store_rules)

  pub get_plan-Keeps : (id : String) → Keeps Intact (get_plan id)
  unfolding get_plan
  get_plan-Keeps id = search (store_rules)

  pub delete_plan-Keeps : (id : String) → Keeps Intact (delete_plan id)
  unfolding delete_plan
  delete_plan-Keeps id = search (store_rules, remove_plan-Allows)

  pub create_node-Keeps :
      (name address key pem config : String) (port : ℤ) (core info : String)
      → Keeps Intact (create_node name address key pem config port core info)
  unfolding create_node
  create_node-Keeps name address key pem config port core info =
      search (store_rules, insert_node-Allows)

  pub get_node-Keeps : (id : String) → Keeps Intact (get_node id)
  unfolding get_node
  get_node-Keeps id = search (store_rules)

  pub list_nodes-Keeps : Keeps Intact list_nodes
  unfolding list_nodes
  list_nodes-Keeps = search (store_rules)

  pub update_node-Keeps : (id : String) (upd : NodeUpdate) → Keeps Intact (update_node id upd)
  unfolding update_node
  update_node-Keeps id upd = search (store_rules, node_update-Allows)

  pub update_node_health-Keeps :
      (id status version : String) (seen : ℤ)
      → Keeps Intact (update_node_health id status version seen)
  unfolding update_node_health
  update_node_health-Keeps id status version seen = search (store_rules, node_update-Allows)

  pub update_node_config-Keeps : (id config : String) → Keeps Intact (update_node_config id config)
  unfolding update_node_config
  update_node_config-Keeps id config = search (store_rules, node_update-Allows)

  pub delete_node-Keeps : (id : String) → Keeps Intact (delete_node id)
  unfolding delete_node
  delete_node-Keeps id = search (store_rules, remove_node-Allows)

  new_sub_token-Keeps : Keeps Intact (new_sub_token)
  unfolding new_sub_token
  new_sub_token-Keeps = search store_rules

  pub create_subscription-Keeps : (s : Subscription) → Keeps Intact (create_subscription s)
  unfolding create_subscription
  create_subscription-Keeps s =
      search (store_rules, insert_subscription-Allows, new_sub_token-Keeps) depth 9

  pub get_subscription-Keeps : (id : String) → Keeps Intact (get_subscription id)
  unfolding get_subscription
  get_subscription-Keeps id = search (store_rules)

  pub get_subscription_by_token-Keeps :
      (token : String) → Keeps Intact (get_subscription_by_token token)
  unfolding get_subscription_by_token
  get_subscription_by_token-Keeps token = search (store_rules)

  pub list_subscriptions_by_customer-Keeps :
      (id : String) → Keeps Intact (list_subscriptions_by_customer id)
  unfolding list_subscriptions_by_customer
  list_subscriptions_by_customer-Keeps id = search (store_rules)

  pub list_active_subscriptions-Keeps : Keeps Intact list_active_subscriptions
  unfolding list_active_subscriptions
  list_active_subscriptions-Keeps = search (store_rules)

  pub update_subscription_usage-Keeps :
      (id : String) (used : ℤ) → Keeps Intact (update_subscription_usage id used)
  unfolding update_subscription_usage
  update_subscription_usage-Keeps id used =
      search (store_rules, subscription_update-Allows, replace_usage-SameKeys)

  pub update_subscription_status-Keeps :
      (id status : String) → Keeps Intact (update_subscription_status id status)
  unfolding update_subscription_status
  update_subscription_status-Keeps id status =
      search (store_rules, subscription_update-Allows, replace_status-SameKeys)

  pub update_subscription_notified-Keeps :
      (id : String) (level : ℕ) → Keeps Intact (update_subscription_notified id level)
  unfolding update_subscription_notified
  update_subscription_notified-Keeps id level =
      search (store_rules, subscription_update-Allows, replace_notified-SameKeys)

  pub add_subscription_quota-Keeps :
      (id : String) (add : ℤ) → Keeps Intact (add_subscription_quota id add)
  unfolding add_subscription_quota
  add_subscription_quota-Keeps id add =
      search (store_rules, subscription_update-Allows, raise_quota-SameKeys)

  pub count_subscriptions_by_node-Keeps :
      (id : String) → Keeps Intact (count_subscriptions_by_node id)
  unfolding count_subscriptions_by_node
  count_subscriptions_by_node-Keeps id = search (store_rules)

  pub create_api_key-Keeps :
      (customer hash prefix : String) → Keeps Intact (create_api_key customer hash prefix)
  unfolding create_api_key
  create_api_key-Keeps customer hash prefix = search (store_rules, insert_key-Allows)

  pub delete_subscription-Keeps : (id : String) → Keeps Intact (delete_subscription id)
  unfolding delete_subscription
  delete_subscription-Keeps id = search (store_rules, remove_subscription-Allows)

  pub renew_subscription-Keeps :
      (id : String) (end_at : ℤ) → Keeps Intact (renew_subscription id end_at)
  unfolding renew_subscription
  renew_subscription-Keeps id end_at =
      search (store_rules, subscription_update-Allows, renewed-SameKeys)

  pub record_usage-Keeps :
      (tenant node : String) (period : ℕ) (used : ℤ)
      → Keeps Intact (record_usage tenant node period used)
  unfolding record_usage
  record_usage-Keeps tenant node period used = search (store_rules, insert_usage-Allows)

  pub prune_history-Keeps : (retention : ℤ) → Keeps Intact (prune_history retention)
  unfolding prune_history
  prune_history-Keeps retention = search (store_rules, prune_usage-Allows, prune_deliveries-Allows)

  pub create_webhook-Keeps :
      (url secret events : String) → Keeps Intact (create_webhook url secret events)
  unfolding create_webhook
  create_webhook-Keeps url secret events = search (store_rules, insert_webhook-Allows)

  pub list_webhooks-Keeps : Keeps Intact list_webhooks
  unfolding list_webhooks
  list_webhooks-Keeps = search (store_rules)

  pub list_active_webhooks-Keeps : Keeps Intact list_active_webhooks
  unfolding list_active_webhooks
  list_active_webhooks-Keeps = search (store_rules)

  pub record_webhook_delivery-Keeps :
      (id event payload status : String) (n : ℕ)
      → Keeps Intact (record_webhook_delivery id event payload status n)
  unfolding record_webhook_delivery
  record_webhook_delivery-Keeps id event payload status n =
      search (store_rules, insert_delivery-Allows)

pub ruleset store_calls = (
  create_customer-Keeps, list_customers-Keeps, get_customer-Keeps, delete_customer-Keeps,
  set_customer_status-Keeps, create_plan-Keeps, list_plans-Keeps, get_plan-Keeps, delete_plan-Keeps,
  create_node-Keeps, get_node-Keeps, list_nodes-Keeps, update_node-Keeps, update_node_health-Keeps,
  update_node_config-Keeps, delete_node-Keeps, create_subscription-Keeps, get_subscription-Keeps,
  get_subscription_by_token-Keeps, list_subscriptions_by_customer-Keeps,
  list_active_subscriptions-Keeps, update_subscription_usage-Keeps,
  update_subscription_status-Keeps, update_subscription_notified-Keeps,
  add_subscription_quota-Keeps, count_subscriptions_by_node-Keeps, create_api_key-Keeps,
  delete_subscription-Keeps, renew_subscription-Keeps, record_usage-Keeps, prune_history-Keeps,
  create_webhook-Keeps, list_webhooks-Keeps, list_active_webhooks-Keeps,
  record_webhook_delivery-Keeps,
)
