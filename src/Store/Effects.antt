-- ===== src/Store/Effects.antt =====
-- What the calls of internal/store do to the state of the panel: a read takes one tick, a write
-- that fails changes no table.
use node_panel.Prelude.{some, String, ◌≡◌, none, arith, select, not, select-not_of_count}
use node_panel.Domain.{Customer, Plan, Node, Subscription}
use node_panel.Schema.{Db}
use node_panel.Runtime.{Env, World, next}
use node_panel.Runtime.Exec.{Err, ok, err}
use node_panel.Store.Customers.{get_customer, select_customer}
use node_panel.Store.Plans.{get_plan, select_plan}
use node_panel.Store.Nodes.{get_node, select_node}
use node_panel.Store.Subscriptions
use node_panel.Store.Subscriptions.{
  get_subscription, select_subscription, delete_subscription, list_subscriptions_by_customer,
}

-- Only the tables may differ.
pub record Wrote (w w' : World) : Type 0 where
  pub queue : w'.queue ≡ w.queue
  pub sent : w'.sent ≡ w.sent
  pub posted : w'.posted ≡ w.posted

module _ ⦃env : Env⦄ where
  pub next-get_subscription : (id : String) (w : World) → (get_subscription id w).1 ≡ next w
  unfolding get_subscription
  next-get_subscription id w = ground arith

  pub get_subscription-ok :
      (id : String) (w : World) {s : Subscription}
      → (get_subscription id w).0 ≡ ok s
      → select_subscription (Subscriptions.has_id id) w.db ≡ ok s
  unfolding get_subscription
  get_subscription-ok id w h = ground arith

  pub next-get_node : (id : String) (w : World) → (get_node id w).1 ≡ next w
  unfolding get_node
  next-get_node id w = ground arith

  pub get_node-ok :
      (id : String) (w : World) {n : Node} → (get_node id w).0 ≡ ok n → select_node id w.db ≡ ok n
  unfolding get_node
  get_node-ok id w h = ground arith

  pub next-get_plan : (id : String) (w : World) → (get_plan id w).1 ≡ next w
  unfolding get_plan
  next-get_plan id w = ground arith

  pub get_plan-ok :
      (id : String) (w : World) {p : Plan} → (get_plan id w).0 ≡ ok p → select_plan id w.db ≡ ok p
  unfolding get_plan
  get_plan-ok id w h = ground arith

  pub next-get_customer : (id : String) (w : World) → (get_customer id w).1 ≡ next w
  unfolding get_customer
  next-get_customer id w = ground arith

  pub get_customer-ok :
      (id : String) (w : World) {c : Customer}
      → (get_customer id w).0 ≡ ok c
      → select_customer id w.db ≡ ok c
  unfolding get_customer
  get_customer-ok id w h = ground arith

  abbrev pub without_subscription : String → Db → Db
  without_subscription id db = record db {
    subscriptions = select (λ r. not (Subscriptions.has_id id r)) db.subscriptions;
  }

  pub delete_subscription-Wrote : (id : String) (w : World) → Wrote w (delete_subscription id w).1
  unfolding delete_subscription
  delete_subscription-Wrote id w = ground arith

  pub db-delete_subscription_ok :
      (id : String) (w : World)
      → (delete_subscription id w).0 ≡ ok tt
      → (delete_subscription id w).1.db ≡ without_subscription id w.db
  unfolding delete_subscription
  db-delete_subscription_ok id w h = ground arith

  pub db-delete_subscription_err :
      (id : String) (w : World) {e : Err}
      → (delete_subscription id w).0 ≡ err e
      → (delete_subscription id w).1.db ≡ w.db
  unfolding delete_subscription
  db-delete_subscription_err id w h =
      ground (arith, select-not_of_count (Subscriptions.has_id id) w.db.subscriptions)

  -- Where the driver does not fail, the row is gone, whether or not it was there.
  pub db-delete_subscription :
      (id : String) (w : World)
      → env.db_fault w.tick ≡ none
      → (delete_subscription id w).1.db ≡ without_subscription id w.db
  unfolding delete_subscription
  db-delete_subscription id w h = ground arith

  pub db-delete_subscription_failed :
      (id : String) (w : World) {text : String}
      → env.db_fault w.tick ≡ some text
      → (delete_subscription id w).1.db ≡ w.db
  unfolding delete_subscription
  db-delete_subscription_failed id w h = ground (arith, h)
