-- ===== src/Store/Removals.antt =====
-- What the DELETE statements of internal/store/mutations.go on customers, nodes and plans do to the
-- state, and the reads that their handlers make first.
use node_panel.Prelude.{
  ℕ, String, true, false, List, ◌≡◌, ◌==◌, arith, any, select, count, count-of_any,
  count-of_not_any, not, select-not_of_count,
}
use node_panel.Domain.{Subscription}
use node_panel.Schema.{Db, SubscriptionRow}
use node_panel.Runtime.{Env, World, next}
use node_panel.Runtime.Exec.{Err, ok, err}
use node_panel.Store.Table.{holds, newest_first}
use node_panel.Store.Customers.{delete_customer, without_customer}
use node_panel.Store.Customers
use node_panel.Store.Nodes.{delete_node}
use node_panel.Store.Nodes
use node_panel.Store.Plans.{delete_plan}
use node_panel.Store.Plans
use node_panel.Store.Subscriptions.{
  list_subscriptions_by_customer, count_subscriptions_by_node, scan_all,
}
use node_panel.Store.Effects.{Wrote}

-- the rows of a customer, in the order in which the code sees them
abbrev pub rows_of_customer : String → Db → List SubscriptionRow
rows_of_customer id db =
    newest_first (λ r. r.created_at) (select (λ r. r.customer_id == id) db.subscriptions)

abbrev pub on_node : String → Db → ℕ
on_node id db = count (λ r. holds id r.node_id) db.subscriptions

module _ ⦃env : Env⦄ where
  module _ (id : String) (w : World) where
    pub next-list_subscriptions_by_customer : (list_subscriptions_by_customer id w).1 ≡ next w
    unfolding list_subscriptions_by_customer
    next-list_subscriptions_by_customer = ground arith

    pub list_subscriptions_by_customer-ok :
        {subs : List Subscription}
        → (list_subscriptions_by_customer id w).0 ≡ ok subs
        → scan_all (rows_of_customer id w.db) ≡ ok subs
    unfolding list_subscriptions_by_customer
    list_subscriptions_by_customer-ok h = ground arith

    pub next-count_subscriptions_by_node : (count_subscriptions_by_node id w).1 ≡ next w
    unfolding count_subscriptions_by_node
    next-count_subscriptions_by_node = ground arith

    pub count_subscriptions_by_node-ok :
        {n : ℕ} → (count_subscriptions_by_node id w).0 ≡ ok n → n ≡ on_node id w.db
    unfolding count_subscriptions_by_node
    count_subscriptions_by_node-ok h = ground arith

    pub delete_customer-Wrote : Wrote w (delete_customer id w).1
    unfolding delete_customer
    delete_customer-Wrote = ground arith

    pub db-delete_customer_ok :
        w.db.shape.foreign_keys ≡ true
        → (delete_customer id w).0 ≡ ok tt
        → (delete_customer id w).1.db ≡ without_customer id w.db
    unfolding delete_customer
    db-delete_customer_ok enforced h = ground arith

    pub db-delete_customer_err :
        {e : Err} → (delete_customer id w).0 ≡ err e → (delete_customer id w).1.db ≡ w.db
    unfolding delete_customer
    db-delete_customer_err h = ground (arith, count-of_any (Customers.has_id id) w.db.customers)

    pub db-delete_node_ok :
        (delete_node id w).0 ≡ ok tt
        → (delete_node id w).1.db
          ≡ record w.db { nodes = select (λ r. not (Nodes.has_id id r)) w.db.nodes }
    unfolding delete_node
    db-delete_node_ok h = ground arith

    pub db-delete_node_err :
        {e : Err} → (delete_node id w).0 ≡ err e → (delete_node id w).1.db ≡ w.db
    unfolding delete_node
    db-delete_node_err h = ground (arith, select-not_of_count (Nodes.has_id id) w.db.nodes)

    pub db-delete_plan_ok :
        w.db.shape.foreign_keys ≡ true
        → (delete_plan id w).0 ≡ ok tt
        → (any (λ s. holds id s.plan_id) w.db.subscriptions ≡ false)
          × ((delete_plan id w).1.db
              ≡ record w.db { plans = select (λ r. not (Plans.has_id id r)) w.db.plans })
    unfolding delete_plan
    db-delete_plan_ok enforced h = ground (arith, count-of_not_any (Plans.has_id id) w.db.plans)

    pub db-delete_plan_err :
        {e : Err} → (delete_plan id w).0 ≡ err e → (delete_plan id w).1.db ≡ w.db
    unfolding delete_plan
    db-delete_plan_err h = ground (arith, select-not_of_count (Plans.has_id id) w.db.plans)
