-- ===== src/Store/Intact/Rows.antt =====
-- One table replaced: what it takes for the tables to stay intact.
use node_panel.Prelude.{some, List, true, ◌≡◌, All}
use node_panel.Domain.{Plan, WebhookEndpoint}
use node_panel.Schema.{
  Db, CustomerRow, NodeRow, SubscriptionRow, ApiKeyRow, UsageRecord, WebhookDelivery,
}
use node_panel.Store.Table.{references}
use node_panel.Store.Intact.{Unique, Intact}

module _ {db : Db} (i : Intact db) where
  pub customers-Intact :
      (rows : List CustomerRow)
      → Unique (λ r. r.id) rows
      → All (λ s. references (λ c. c.id) rows (some s.customer_id) ≡ true) db.subscriptions
      → All (λ k. references (λ c. c.id) rows (some k.customer_id) ≡ true) db.api_keys
      → Intact (record db { customers = rows })
  customers-Intact rows unique owned keyed = record {
    enforced = i.enforced;
    customers = unique;
    plans = i.plans;
    nodes = i.nodes;
    subscriptions = i.subscriptions;
    api_keys = i.api_keys;
    usage_records = i.usage_records;
    endpoints = i.endpoints;
    deliveries = i.deliveries;
    owned = owned;
    planned = i.planned;
    placed = i.placed;
    keyed = keyed;
    addressed = i.addressed;
  }

  pub plans-Intact :
      (rows : List Plan)
      → Unique (λ r. r.id) rows
      → All (λ s. references (λ p. p.id) rows s.plan_id ≡ true) db.subscriptions
      → Intact (record db { plans = rows })
  plans-Intact rows unique planned = record {
    enforced = i.enforced;
    customers = i.customers;
    plans = unique;
    nodes = i.nodes;
    subscriptions = i.subscriptions;
    api_keys = i.api_keys;
    usage_records = i.usage_records;
    endpoints = i.endpoints;
    deliveries = i.deliveries;
    owned = i.owned;
    planned = planned;
    placed = i.placed;
    keyed = i.keyed;
    addressed = i.addressed;
  }

  pub nodes-Intact :
      (rows : List NodeRow)
      → Unique (λ r. r.id) rows
      → All (λ s. references (λ n. n.id) rows s.node_id ≡ true) db.subscriptions
      → Intact (record db { nodes = rows })
  nodes-Intact rows unique placed = record {
    enforced = i.enforced;
    customers = i.customers;
    plans = i.plans;
    nodes = unique;
    subscriptions = i.subscriptions;
    api_keys = i.api_keys;
    usage_records = i.usage_records;
    endpoints = i.endpoints;
    deliveries = i.deliveries;
    owned = i.owned;
    planned = i.planned;
    placed = placed;
    keyed = i.keyed;
    addressed = i.addressed;
  }

  pub subscriptions-Intact :
      (rows : List SubscriptionRow)
      → Unique (λ r. r.id) rows
      → All (λ s. references (λ c. c.id) db.customers (some s.customer_id) ≡ true) rows
      → All (λ s. references (λ p. p.id) db.plans s.plan_id ≡ true) rows
      → All (λ s. references (λ n. n.id) db.nodes s.node_id ≡ true) rows
      → Intact (record db { subscriptions = rows })
  subscriptions-Intact rows unique owned planned placed = record {
    enforced = i.enforced;
    customers = i.customers;
    plans = i.plans;
    nodes = i.nodes;
    subscriptions = unique;
    api_keys = i.api_keys;
    usage_records = i.usage_records;
    endpoints = i.endpoints;
    deliveries = i.deliveries;
    owned = owned;
    planned = planned;
    placed = placed;
    keyed = i.keyed;
    addressed = i.addressed;
  }

  pub api_keys-Intact :
      (rows : List ApiKeyRow)
      → Unique (λ r. r.id) rows
      → All (λ k. references (λ c. c.id) db.customers (some k.customer_id) ≡ true) rows
      → Intact (record db { api_keys = rows })
  api_keys-Intact rows unique keyed = record {
    enforced = i.enforced;
    customers = i.customers;
    plans = i.plans;
    nodes = i.nodes;
    subscriptions = i.subscriptions;
    api_keys = unique;
    usage_records = i.usage_records;
    endpoints = i.endpoints;
    deliveries = i.deliveries;
    owned = i.owned;
    planned = i.planned;
    placed = i.placed;
    keyed = keyed;
    addressed = i.addressed;
  }

  pub usage_records-Intact :
      (rows : List UsageRecord)
      → Unique (λ r. r.id) rows
      → Intact (record db { usage_records = rows })
  usage_records-Intact rows unique = record {
    enforced = i.enforced;
    customers = i.customers;
    plans = i.plans;
    nodes = i.nodes;
    subscriptions = i.subscriptions;
    api_keys = i.api_keys;
    usage_records = unique;
    endpoints = i.endpoints;
    deliveries = i.deliveries;
    owned = i.owned;
    planned = i.planned;
    placed = i.placed;
    keyed = i.keyed;
    addressed = i.addressed;
  }

  pub webhook_endpoints-Intact :
      (rows : List WebhookEndpoint)
      → Unique (λ r. r.id) rows
      → All (λ d. references (λ e. e.id) rows (some d.endpoint_id) ≡ true) db.webhook_deliveries
      → Intact (record db { webhook_endpoints = rows })
  webhook_endpoints-Intact rows unique addressed = record {
    enforced = i.enforced;
    customers = i.customers;
    plans = i.plans;
    nodes = i.nodes;
    subscriptions = i.subscriptions;
    api_keys = i.api_keys;
    usage_records = i.usage_records;
    endpoints = unique;
    deliveries = i.deliveries;
    owned = i.owned;
    planned = i.planned;
    placed = i.placed;
    keyed = i.keyed;
    addressed = addressed;
  }

  pub webhook_deliveries-Intact :
      (rows : List WebhookDelivery)
      → Unique (λ r. r.id) rows
      → All (λ d. references (λ e. e.id) db.webhook_endpoints (some d.endpoint_id) ≡ true) rows
      → Intact (record db { webhook_deliveries = rows })
  webhook_deliveries-Intact rows unique addressed = record {
    enforced = i.enforced;
    customers = i.customers;
    plans = i.plans;
    nodes = i.nodes;
    subscriptions = i.subscriptions;
    api_keys = i.api_keys;
    usage_records = i.usage_records;
    endpoints = i.endpoints;
    deliveries = unique;
    owned = i.owned;
    planned = i.planned;
    placed = i.placed;
    keyed = i.keyed;
    addressed = addressed;
  }
