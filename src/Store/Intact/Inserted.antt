-- ===== src/Store/Intact/Inserted.antt =====
-- The INSERT statements and the integrity of the tables.
use node_panel.Prelude.{
  some, Bool, true, ◌&&◌, ◌≡◌, ap, subst, inl, inr, any, All-map, All-append, arith, Bool-cases,
  ◌==◌,
}
use node_panel.Domain.{Customer, Plan, Node, Subscription, WebhookEndpoint}
use node_panel.Schema.{Db, ApiKeyRow, UsageRecord, WebhookDelivery}
use node_panel.Runtime.Exec.{Err, Result, ok, err}
use node_panel.Runtime.Exec.Keeps.{Allows}
use node_panel.Store.Table.{references, checked}
use node_panel.Store.Customers
use node_panel.Store.Customers.{insert_customer}
use node_panel.Store.Plans
use node_panel.Store.Plans.{insert_plan}
use node_panel.Store.Nodes
use node_panel.Store.Nodes.{insert_node}
use node_panel.Store.Subscriptions
use node_panel.Store.Subscriptions.{insert_subscription, insert_key, new_row}
use node_panel.Store.History.{insert_usage}
use node_panel.Store.Webhooks.{insert_webhook, insert_delivery}
use node_panel.Store.Intact.{Intact}
use node_panel.Store.Intact.Keys.{Unique-append, references-append}
use node_panel.Store.Intact.Rows.{
  customers-Intact, plans-Intact, nodes-Intact, subscriptions-Intact, api_keys-Intact,
  usage_records-Intact, webhook_endpoints-Intact, webhook_deliveries-Intact,
}

abbrev db_or : {A : Type 0} → Db → Result Err (A × Db) → Db
db_or d (ok (a, db)) = db
db_or d (err e) = d

-- the tables that a statement leaves
pub ok_db :
    {A : Type 0} {a b : A} {d d' : Db}
    → ◌≡◌ {A = Result Err (A × Db)} (ok (a, d)) (ok (b, d'))
    → d ≡ d'
ok_db {d = d} h = ap (db_or d) h

checked_lem :
    (db : Db) {present : Bool}
    → db.shape.foreign_keys ≡ true
    → checked db present ≡ true
    → present ≡ true
checked_lem db e h = ground (arith, e, h)

pub insert_customer-Allows : (c : Customer) → Allows Intact (insert_customer c)
unfolding insert_customer
insert_customer-Allows c = record {
  at = λ db db' a. elim (Bool-cases (any (Customers.has_id c.id) db.customers)) [
    | inl e ↦ rw (insert_customer, e) (λ h. absurd (ground arith))
    | inr e ↦
        rw (insert_customer, e)
          (λ h i. subst Intact (ok_db h) (
            customers-Intact i _ (Unique-append (λ r. r.id) db.customers _ i.customers e)
              (All-map _ _
                (λ s k. references-append (λ r. r.id) db.customers _ (some s.customer_id) k)
                db.subscriptions i.owned)
              (All-map _ _
                (λ r k. references-append (λ r. r.id) db.customers _ (some r.customer_id) k)
                db.api_keys i.keyed)))
  ];
}

pub insert_plan-Allows : (p : Plan) → Allows Intact (insert_plan p)
unfolding insert_plan
insert_plan-Allows p = record {
  at = λ db db' a. elim (Bool-cases (any (Plans.has_id p.id) db.plans)) [
    | inl e ↦ rw (insert_plan, e) (λ h. absurd (ground arith))
    | inr e ↦
        rw (insert_plan, e)
          (λ h i. subst Intact (ok_db h) (
            plans-Intact i _ (Unique-append (λ r. r.id) db.plans _ i.plans e) (
              All-map _ _ (λ s k. references-append (λ r. r.id) db.plans _ s.plan_id k)
                db.subscriptions i.planned)))
  ];
}

pub insert_node-Allows : (n : Node) → Allows Intact (insert_node n)
unfolding insert_node
insert_node-Allows n = record {
  at = λ db db' a. elim (Bool-cases (any (Nodes.has_id n.id) db.nodes)) [
    | inl e ↦ rw (insert_node, e) (λ h. absurd (ground arith))
    | inr e ↦
        rw (insert_node, e)
          (λ h i. subst Intact (ok_db h) (
            nodes-Intact i _ (Unique-append (λ r. r.id) db.nodes _ i.nodes e) (
              All-map _ _ (λ s k. references-append (λ r. r.id) db.nodes _ s.node_id k)
                db.subscriptions i.placed)))
  ];
}

pub insert_usage-Allows : (u : UsageRecord) → Allows Intact (insert_usage u)
unfolding insert_usage
insert_usage-Allows u = record {
  at = λ db db' a. elim (Bool-cases (any (λ r. r.id == u.id) db.usage_records)) [
    | inl e ↦ rw (insert_usage, e) (λ h. absurd (ground arith))
    | inr e ↦
        rw (insert_usage, e)
          (λ h i. subst Intact (ok_db h) (
            usage_records-Intact i _
              (Unique-append (λ r. r.id) db.usage_records _ i.usage_records e)))
  ];
}

pub insert_webhook-Allows : (x : WebhookEndpoint) → Allows Intact (insert_webhook x)
unfolding insert_webhook
insert_webhook-Allows x = record {
  at = λ db db' a. elim (Bool-cases (any (λ r. r.id == x.id) db.webhook_endpoints)) [
    | inl e ↦ rw (insert_webhook, e) (λ h. absurd (ground arith))
    | inr e ↦
        rw (insert_webhook, e)
          (λ h i. subst Intact (ok_db h) (
            webhook_endpoints-Intact i _
              (Unique-append (λ r. r.id) db.webhook_endpoints _ i.endpoints e)
              (All-map _ _
                (λ d k. references-append (λ r. r.id) db.webhook_endpoints _ (some d.endpoint_id) k)
                db.webhook_deliveries i.addressed)))
  ];
}

pub insert_delivery-Allows : (d : WebhookDelivery) → Allows Intact (insert_delivery d)
unfolding insert_delivery
insert_delivery-Allows d = record {
  at = λ db db' a. elim (Bool-cases (any (λ r. r.id == d.id) db.webhook_deliveries)) [
    | inl e ↦ rw (insert_delivery, e) (λ h. absurd (ground arith))
    | inr e ↦
        elim (Bool-cases
          (checked db (references (λ x. x.id) db.webhook_endpoints (some d.endpoint_id)))) [
            | inr f ↦ rw (insert_delivery, e, f) (λ h. absurd (ground arith))
            | inl f ↦
                rw (insert_delivery, e, f)
                  (λ h i. subst Intact (ok_db h) (
                    webhook_deliveries-Intact i _
                      (Unique-append (λ r. r.id) db.webhook_deliveries _ i.deliveries e)
                      (All-append _ db.webhook_deliveries _ i.addressed
                        (checked_lem db i.enforced f, tt))))
          ]
  ];
}

pub insert_key-Allows : (k : ApiKeyRow) → Allows Intact (insert_key k)
unfolding insert_key
insert_key-Allows k = record {
  at = λ db db' a. elim (Bool-cases (any (λ r. r.id == k.id) db.api_keys)) [
    | inl e ↦ rw (insert_key, e) (λ h. absurd (ground arith))
    | inr e ↦ elim (Bool-cases (any (λ r. r.key_hash == k.key_hash) db.api_keys)) [
      | inl g ↦ rw (insert_key, e, g) (λ h. absurd (ground arith))
      | inr g ↦
          elim (Bool-cases
            (checked db (references (λ x. x.id) db.customers (some k.customer_id)))) [
              | inr f ↦ rw (insert_key, e, g, f) (λ h. absurd (ground arith))
              | inl f ↦
                  rw (insert_key, e, g, f)
                    (λ h i. subst Intact (ok_db h) (
                      api_keys-Intact i _ (Unique-append (λ r. r.id) db.api_keys _ i.api_keys e)
                        (All-append _ db.api_keys _ i.keyed (checked_lem db i.enforced f, tt))))
            ]
    ]
  ];
}

abbrev refers : Subscription → Db → Bool
refers s db =
    references (λ c. c.id) db.customers (some s.customer_id)
    && references (λ p. p.id) db.plans (some s.plan_id)
    && references (λ n. n.id) db.nodes (some s.node_id)

and_parts : (a b c : Bool) → (a && b && c) ≡ true → (a ≡ true) × (b ≡ true) × (c ≡ true)
and_parts a b c h = ground (arith, h)

pub insert_subscription-Allows : (s : Subscription) → Allows Intact (insert_subscription s)
unfolding insert_subscription new_row
insert_subscription-Allows s = record {
  at = λ db db' a. elim (Bool-cases (any (Subscriptions.has_id s.id) db.subscriptions)) [
    | inl e ↦ rw (insert_subscription, e) (λ h. absurd (ground arith))
    | inr e ↦ elim (Bool-cases (checked db (refers s db))) [
      | inr f ↦ rw (insert_subscription, e, f) (λ h. absurd (ground arith))
      | inl f ↦
          rw (insert_subscription, e, f)
            (λ h i.
              let (c, p, n) = and_parts _ _ _ (checked_lem db i.enforced f) in
              subst Intact (ok_db h) (
                subscriptions-Intact i _
                  (Unique-append (λ r. r.id) db.subscriptions _ i.subscriptions e)
                  (All-append _ db.subscriptions _ i.owned (c, tt))
                  (All-append _ db.subscriptions _ i.planned (p, tt))
                  (All-append _ db.subscriptions _ i.placed (n, tt))))
    ]
  ];
}
