-- ===== src/Store/Intact/Removed.antt =====
-- The DELETE statements keep the tables intact: they cascade, or refuse while a row is in use.
use node_panel.Prelude.{
  if◌then◌else◌, String, Option, some, List, Bool, true, false, not, ◌&&◌, ◌≡◌, sym, subst, inl,
  inr, any, All, select, arith, Bool-cases, ◌==◌, select-not_of_count, count-of_not_any,
}
use node_panel.Prelude.Int.{ℤ}
use node_panel.Schema.{Db, SubscriptionRow}
use node_panel.Runtime.Exec.{ok}
use node_panel.Runtime.Exec.Keeps.{Allows}
use node_panel.Store.Table.{references, holds}
use node_panel.Store.Customers
use node_panel.Store.Customers.{remove_customer}
use node_panel.Store.Plans
use node_panel.Store.Plans.{remove_plan}
use node_panel.Store.Nodes
use node_panel.Store.Nodes.{remove_node}
use node_panel.Store.Subscriptions.{remove_subscription}
use node_panel.Store.History.{prune_usage, prune_deliveries}
use node_panel.Store.Intact.{Intact}
use node_panel.Store.Intact.Keys.{
  Unique-select, references-select, All-kept, All-selected, All-none,
}
use node_panel.Store.Intact.Rows.{
  customers-Intact, plans-Intact, nodes-Intact, subscriptions-Intact, api_keys-Intact,
  usage_records-Intact, webhook_deliveries-Intact,
}
use node_panel.Store.Intact.Inserted.{ok_db}

other : (b : Bool) → not b ≡ true → b ≡ false
other b h = ground (arith, h)

kept_subscriptions :
    (q : SubscriptionRow → Bool) {db : Db}
    → Intact db
    → Intact (record db { subscriptions = select q db.subscriptions })
kept_subscriptions q {db} i =
    subscriptions-Intact i _ (Unique-select (λ r. r.id) q db.subscriptions i.subscriptions)
      (All-kept _ q db.subscriptions i.owned) (All-kept _ q db.subscriptions i.planned)
      (All-kept _ q db.subscriptions i.placed)

pub remove_subscription-Allows : (id : String) → Allows Intact (remove_subscription id)
unfolding remove_subscription
remove_subscription-Allows id = record {
  at = λ db db' a h i. subst Intact (ok_db h) (kept_subscriptions _ i);
}

without_customer-Intact :
    (id : String) {db : Db} → Intact db → Intact (Customers.without_customer id db)
without_customer-Intact id {db} i =
    let fewer = kept_subscriptions (λ r. not (r.customer_id == id)) i in
    let keys =
      api_keys-Intact fewer (select (λ r. not (r.customer_id == id)) db.api_keys)
        (Unique-select (λ r. r.id) _ db.api_keys i.api_keys) (All-kept _ _ db.api_keys i.keyed) in
    customers-Intact keys (select (λ r. not (r.id == id)) db.customers)
      (Unique-select (λ r. r.id) _ db.customers i.customers)
      (All-selected _ _ _ db.subscriptions
        (λ s q k. references-select (λ c. c.id) id db.customers (some s.customer_id) (other _ q) k)
        i.owned)
      (All-selected _ _ _ db.api_keys
        (λ s q k. references-select (λ c. c.id) id db.customers (some s.customer_id) (other _ q) k)
        i.keyed)

customer_removed-Intact :
    (id : String) {db : Db} → Intact db → Intact (Customers.customer_removed id db)
customer_removed-Intact id {db} i =
    subst
      (λ b. Intact (
        if b
        then Customers.without_customer id db
        else record db { customers = select (λ r. not (r.id == id)) db.customers }))
      (sym i.enforced) (without_customer-Intact id i)

pub remove_customer-Allows : (id : String) → Allows Intact (remove_customer id)
unfolding remove_customer
remove_customer-Allows id = record {
  at = λ db db' a. elim (Bool-cases (any (Customers.has_id id) db.customers)) [
    | inl e ↦ rw (remove_customer, e) (λ h i. subst Intact (ok_db h) (customer_removed-Intact id i))
    | inr e ↦ rw (remove_customer, e) (λ h i. subst Intact (ok_db h) i)
  ];
}

module _ {ℓ} {A : Type ℓ} (key : A → String) (id : String) (parents : List A) where
  -- Where no row refers to the one that goes, or none goes, the references are still there.
  references_left :
      (fk : SubscriptionRow → Option String) (rows : List SubscriptionRow)
      → (any (λ p. key p == id) parents && any (λ s. holds id (fk s)) rows) ≡ false
      → All (λ s. references key parents (fk s) ≡ true) rows
      → All (λ s. references key (select (λ p. not (key p == id)) parents) (fk s) ≡ true) rows
  references_left fk rows free h = elim (Bool-cases (any (λ p. key p == id) parents)) [
    | inr e ↦
        let same = select-not_of_count (λ p. key p == id) parents (count-of_not_any _ parents e) in
        subst (λ l. All (λ s. references key l (fk s) ≡ true) rows) (sym same) h
    | inl e ↦
        All-none _ _ (λ s. holds id (fk s)) rows
          (λ s q k. references-select key id parents (fk s) q k) (ground (arith, e, free)) h
  ]

refused_false :
    {enforcing in_use : Bool} → enforcing ≡ true → (enforcing && in_use) ≡ false → in_use ≡ false
refused_false e h = ground (arith, e, h)

pub remove_plan-Allows : (id : String) → Allows Intact (remove_plan id)
unfolding remove_plan
remove_plan-Allows id = record {
  at = λ db db' a.
      elim (Bool-cases (
        db.shape.foreign_keys
        && (any (Plans.has_id id) db.plans && any (λ s. holds id s.plan_id) db.subscriptions))) [
          | inl e ↦ rw (remove_plan, e) (λ h. absurd (ground arith))
          | inr e ↦
              rw (remove_plan, e)
                (λ h i. subst Intact (ok_db h) (
                  plans-Intact i _ (Unique-select (λ r. r.id) _ db.plans i.plans) (
                    references_left (λ p. p.id) id db.plans (λ s. s.plan_id) db.subscriptions
                      (refused_false i.enforced e) i.planned)))
        ];
}

pub remove_node-Allows : (id : String) → Allows Intact (remove_node id)
unfolding remove_node
remove_node-Allows id = record {
  at = λ db db' a.
      elim (Bool-cases (
        db.shape.foreign_keys
        && (any (Nodes.has_id id) db.nodes && any (λ s. holds id s.node_id) db.subscriptions))) [
          | inl e ↦ rw (remove_node, e) (λ h. absurd (ground arith))
          | inr e ↦
              rw (remove_node, e)
                (λ h i. subst Intact (ok_db h) (
                  nodes-Intact i _ (Unique-select (λ r. r.id) _ db.nodes i.nodes) (
                    references_left (λ p. p.id) id db.nodes (λ s. s.node_id) db.subscriptions
                      (refused_false i.enforced e) i.placed)))
        ];
}

pub prune_usage-Allows :
    (cutoff : ℤ)
    → Allows Intact
        (λ db. ok (tt {0}, record db { usage_records = prune_usage cutoff db.usage_records }))
prune_usage-Allows cutoff = record {
  at = λ db db' a h i.
      subst Intact (ok_db h)
        (usage_records-Intact i _ (Unique-select (λ r. r.id) _ db.usage_records i.usage_records));
}

pub prune_deliveries-Allows :
    (cutoff : ℤ)
    → Allows Intact (λ db.
      ok (tt {0}, record db { webhook_deliveries = prune_deliveries cutoff db.webhook_deliveries }))
prune_deliveries-Allows cutoff = record {
  at = λ db db' a h i. subst Intact (ok_db h) (
      webhook_deliveries-Intact i _ (Unique-select (λ r. r.id) _ db.webhook_deliveries i.deliveries)
        (All-kept _ _ db.webhook_deliveries i.addressed));
}
