-- ===== src/Store/Intact/Changed.antt =====
-- The UPDATE statements keep the tables intact: none of them writes a key or a reference.
use node_panel.Prelude.{ℕ, String, some, Bool, true, ◌≡◌, refl, sym, subst, ◌==◌, update, All-map}
use node_panel.Prelude.Int.{ℤ}
use node_panel.Runtime.{Env}
use node_panel.Schema.{Db, CustomerRow, NodeRow, SubscriptionRow}
use node_panel.Runtime.Exec.{ok}
use node_panel.Runtime.Exec.Keeps.{Allows}
use node_panel.Store.Table.{references}
use node_panel.Store.Customers.{mark_customer}
use node_panel.Store.Subscriptions.{
  replace_usage, replace_status, replace_notified, renewed, raise_quota,
}
use node_panel.Store.Intact.{Intact}
use node_panel.Store.Intact.Keys.{Unique-update, references-update, All-update}
use node_panel.Store.Intact.Rows.{customers-Intact, nodes-Intact, subscriptions-Intact}
use node_panel.Store.Intact.Inserted.{ok_db}

-- what an update of a subscription leaves alone
pub record SameKeys (f : SubscriptionRow → SubscriptionRow) : Type 0 where
  pub id : (r : SubscriptionRow) → (f r).id ≡ r.id
  pub customer : (r : SubscriptionRow) → (f r).customer_id ≡ r.customer_id
  pub plan : (r : SubscriptionRow) → (f r).plan_id ≡ r.plan_id
  pub node : (r : SubscriptionRow) → (f r).node_id ≡ r.node_id

pub replace_usage-SameKeys : (used : ℤ) → SameKeys (replace_usage used)
replace_usage-SameKeys used = record {
  id = λ r. refl;
  customer = λ r. refl;
  plan = λ r. refl;
  node = λ r. refl;
}

pub replace_status-SameKeys : (status : String) → SameKeys (replace_status status)
replace_status-SameKeys status = record {
  id = λ r. refl;
  customer = λ r. refl;
  plan = λ r. refl;
  node = λ r. refl;
}

pub replace_notified-SameKeys : (level : ℕ) → SameKeys (replace_notified level)
replace_notified-SameKeys level = record {
  id = λ r. refl;
  customer = λ r. refl;
  plan = λ r. refl;
  node = λ r. refl;
}

pub renewed-SameKeys : (end_at : ℤ) → SameKeys (renewed end_at)
renewed-SameKeys end_at = record {
  id = λ r. refl;
  customer = λ r. refl;
  plan = λ r. refl;
  node = λ r. refl;
}

pub raise_quota-SameKeys : ⦃env : Env⦄ (add : ℤ) → SameKeys (raise_quota add)
unfolding raise_quota
raise_quota-SameKeys add = record {
  id = λ r. refl;
  customer = λ r. refl;
  plan = λ r. refl;
  node = λ r. refl;
}

pub subscription_update-Allows :
    {A : Type 0} (n : Db → A) (q : SubscriptionRow → Bool) (f : SubscriptionRow → SubscriptionRow)
    → SameKeys f
    → Allows Intact (λ db. ok (n db, record db { subscriptions = update q f db.subscriptions }))
subscription_update-Allows n q f same = record {
  at = λ db db' a h i. subst Intact (ok_db h) (
      subscriptions-Intact i _
        (Unique-update (λ r. r.id) q f db.subscriptions same.id i.subscriptions)
        (All-update _ q f db.subscriptions
          (λ s k.
            subst (λ c. references (λ x. x.id) db.customers (some c) ≡ true) (sym (same.customer s))
              k)
          i.owned)
        (All-update _ q f db.subscriptions
          (λ s k. subst (λ o. references (λ x. x.id) db.plans o ≡ true) (sym (same.plan s)) k)
          i.planned)
        (All-update _ q f db.subscriptions
          (λ s k. subst (λ o. references (λ x. x.id) db.nodes o ≡ true) (sym (same.node s)) k)
          i.placed));
}

pub node_update-Allows :
    {A : Type 0} (n : Db → A) (q : NodeRow → Bool) (f : NodeRow → NodeRow)
    → ((r : NodeRow) → (f r).id ≡ r.id)
    → Allows Intact (λ db. ok (n db, record db { nodes = update q f db.nodes }))
node_update-Allows n q f same = record {
  at = λ db db' a h i. subst Intact (ok_db h) (
      nodes-Intact i _ (Unique-update (λ r. r.id) q f db.nodes same i.nodes) (
        All-map _ _ (λ s k. references-update (λ r. r.id) q f db.nodes s.node_id same k)
          db.subscriptions i.placed));
}

pub mark_customer-Allows : (id status : String) → Allows Intact (mark_customer id status)
unfolding mark_customer
mark_customer-Allows id status = record {
  at = λ db db' a h i.
      let f : CustomerRow → CustomerRow = λ r. record r { status = status } in
      let q : CustomerRow → Bool = λ r. r.id == id in
      subst Intact (ok_db h) (
        customers-Intact i _ (Unique-update (λ r. r.id) q f db.customers (λ r. refl) i.customers)
          (All-map _ _
            (λ s k.
              references-update (λ r. r.id) q f db.customers (some s.customer_id) (λ r. refl) k)
            db.subscriptions i.owned)
          (All-map _ _
            (λ s k.
              references-update (λ r. r.id) q f db.customers (some s.customer_id) (λ r. refl) k)
            db.api_keys i.keyed));
}
