-- ===== src/Api/Lifecycle/Toggled.antt =====
-- `toggleCustomer` of internal/api/lifecycle.go: what enabling or disabling a customer writes.
use node_panel.Prelude.{
  Bool, true, false, not, ◌&&◌, List, [], ◌∷◌, ◌≡◌, refl, ap, sym, ◌∙◌, inl, inr, arith, any,
  update, find?, find-update, find_passes, count-of_find, count, eqb, some, suc, ◌==◌, String,
  Bool-cases, if◌then◌else◌,
}
use node_panel.Prelude.Text.{is_empty}
use node_panel.Domain.{Node, Subscription}
use node_panel.Schema.{Db, CustomerRow, SubscriptionRow}
use node_panel.Runtime.{Env, World, next}
use node_panel.Runtime.Exec.{Err, Result, ok, err, statement}
use node_panel.Runtime.Exec.Ends.{Answers}
use node_panel.Store.Nodes.{get_node, select_node}
use node_panel.Store.Effects.{next-get_node}
use node_panel.Store.Removals.{next-list_subscriptions_by_customer}
use node_panel.Store.Subscriptions.{has_id, replace_status, list_subscriptions_by_customer}
use node_panel.Store.Updates.{db-update_subscription_status}
use node_panel.NodeClient.{client_for_node, suspend, resume}
use node_panel.NodeClient.TenantCalls.{suspend-Untouched, resume-Untouched}
use node_panel.Store.Customers.{get_customer, set_customer_status, mark_customer, scan_customer}
use node_panel.Store.CustomerMap.Calls.{select_customer-found}
use node_panel.Api.Response.{respond, customer}
use node_panel.Api.Lifecycle.{toggle_customer, toggle_all, toggle_tenant, toggle_loaded}

abbrev there : Result Err Node → Bool
there (ok n) = true
there (err e) = false

-- A subscription is switched when its node is on record and it has a tenant there.
abbrev pub switchable : Db → Subscription → Bool
switchable db s = there (select_node s.node_id db) && not (is_empty s.node_tenant_id)

abbrev pub switched_row : Db → List Subscription → SubscriptionRow → Bool
switched_row db ss r = any (λ s. has_id s.id r && switchable db s) ss

abbrev pub switched_status : Bool → String
switched_status enable = if enable then "active" else "suspended"

abbrev pub with_rows : (SubscriptionRow → Bool) → String → Db → Db
with_rows p status db = record db {
  subscriptions = update p (replace_status status) db.subscriptions;
}

abbrev pub customer_status : Bool → String
customer_status enable = if enable then "active" else "disabled"

abbrev pub marked : String → String → Db → Db
marked id status db = record db {
  customers = update (λ c. c.id == id) (λ c. record c { status = status }) db.customers;
}

-- Two writes of one status are one write to the rows of both.
update_both :
    (p q : SubscriptionRow → Bool) (status : String) (rows : List SubscriptionRow)
    → ((r : SubscriptionRow) → q (replace_status status r) ≡ q r)
    → update q (replace_status status) (update p (replace_status status) rows)
      ≡ update (λ r. if p r then true else q r) (replace_status status) rows
update_both p q status [] same = refl
update_both p q status (r ∷ rows) same = ground (arith, same r, update_both p q status rows same)

update_none :
    (p : SubscriptionRow → Bool) (status : String) (rows : List SubscriptionRow)
    → update (λ r. p r && false) (replace_status status) rows ≡ rows
update_none p status [] = refl
update_none p status (r ∷ rows) = ground (arith, update_none p status rows)

update_some :
    (p : SubscriptionRow → Bool) (status : String) (rows : List SubscriptionRow)
    → update (λ r. p r && true) (replace_status status) rows ≡ update p (replace_status status) rows
update_some p status [] = refl
update_some p status (r ∷ rows) = ground (arith, update_some p status rows)

update_never :
    (status : String) (rows : List SubscriptionRow)
    → update (λ r. false) (replace_status status) rows ≡ rows
update_never status [] = refl
update_never status (r ∷ rows) = ap (λ rs. r ∷ rs) (update_never status rows)

module _ ⦃env : Env⦄ where
  db-toggle_tenant :
      (enable : Bool) (s : Subscription) (n : Node) (w : World)
      → Answers
      → (toggle_tenant enable s n w).1.db ≡ with_rows (has_id s.id) (switched_status enable) w.db
  db-toggle_tenant true s n w a =
      let w' = (resume (client_for_node n) s.node_tenant_id w).1 in
      db-update_subscription_status s.id w' (a.clear w'.tick) "active"
      ∙ ap (with_rows (has_id s.id) "active")
          (resume-Untouched (client_for_node n) s.node_tenant_id w).db
  db-toggle_tenant false s n w a =
      let w' = (suspend (client_for_node n) s.node_tenant_id w).1 in
      db-update_subscription_status s.id w' (a.clear w'.tick) "suspended"
      ∙ ap (with_rows (has_id s.id) "suspended")
          (suspend-Untouched (client_for_node n) s.node_tenant_id w).db

  db-toggle_loaded :
      (enable : Bool) (s : Subscription) (n : Result Err Node) (w : World)
      → Answers
      → (toggle_loaded enable s n w).1.db
        ≡ with_rows
            (λ r. has_id s.id r && (there n && not (is_empty s.node_tenant_id)))
            (switched_status enable)
            w.db
  db-toggle_loaded enable s (err e) w a = sym (
      ap (λ rows. record w.db { subscriptions = rows })
        (update_none (has_id s.id) (switched_status enable) w.db.subscriptions))
  db-toggle_loaded enable s (ok n) w a = elim (Bool-cases (is_empty s.node_tenant_id)) [
    | inl e ↦ rw e (
        sym (
          ap (λ rows. record w.db { subscriptions = rows })
            (update_none (has_id s.id) (switched_status enable) w.db.subscriptions)))
    | inr e ↦ rw e (
        db-toggle_tenant enable s n w a
        ∙ sym (
            ap (λ rows. record w.db { subscriptions = rows })
              (update_some (has_id s.id) (switched_status enable) w.db.subscriptions)))
  ]

  toggle_loaded-ok :
      (enable : Bool) (s : Subscription) (n : Result Err Node) (w : World)
      → (toggle_loaded enable s n w).0 ≡ ok tt
  toggle_loaded-ok enable s (err e) w = refl
  toggle_loaded-ok true s (ok n) w = ground arith
  toggle_loaded-ok false s (ok n) w = ground arith

  get_node-Answers : (id : String) (w : World) → Answers → (get_node id w).0 ≡ select_node id w.db
  unfolding get_node
  get_node-Answers id w a = ground (arith, a.clear w.tick)

  abbrev after_one : Bool → Subscription → World → World
  after_one enable s w = (toggle_loaded enable s (select_node s.node_id w.db) (next w)).1

  toggle_all-cons :
      (enable : Bool) (s : Subscription) (ss : List Subscription) (w : World)
      → Answers
      → toggle_all enable (s ∷ ss) w ≡ toggle_all enable ss (after_one enable s w)
  unfolding toggle_all
  toggle_all-cons enable s ss w a =
      rw
        (
          get_node-Answers s.node_id w a,
          next-get_node s.node_id w,
          toggle_loaded-ok enable s (select_node s.node_id w.db) (next w),
        )
        refl

  with_rows-twice :
      (s : Subscription) (ss : List Subscription) (status : String) (db : Db)
      → with_rows
          (switched_row (with_rows (λ r. has_id s.id r && switchable db s) status db) ss)
          status
          (with_rows (λ r. has_id s.id r && switchable db s) status db)
        ≡ with_rows (switched_row db (s ∷ ss)) status db
  unfolding select_node
  with_rows-twice s ss status db =
      ap (λ rows. record db { subscriptions = rows })
        (update_both (λ r. has_id s.id r && switchable db s) (switched_row db ss) status
          db.subscriptions (λ r. refl))

  db-toggle_all :
      (enable : Bool) (ss : List Subscription) (w : World)
      → Answers
      → (toggle_all enable ss w).1.db
        ≡ with_rows (switched_row w.db ss) (switched_status enable) w.db
  db-toggle_all enable [] w a =
      unfold toggle_all in
      sym (
        ap (λ rows. record w.db { subscriptions = rows })
          (update_never (switched_status enable) w.db.subscriptions))
  db-toggle_all enable (s ∷ ss) w a =
      let status = switched_status enable in
      let w2 = after_one enable s w in
      let one = db-toggle_loaded enable s (select_node s.node_id w.db) (next w) a in
      ap (λ x. x.1.db) (toggle_all-cons enable s ss w a)
      ∙ db-toggle_all enable ss w2 a
      ∙ ap (λ db. with_rows (switched_row db ss) status db) one
      ∙ with_rows-twice s ss status w.db

  toggle_all-ok :
      (enable : Bool) (ss : List Subscription) (w : World)
      → Answers
      → (toggle_all enable ss w).0 ≡ ok tt
  toggle_all-ok enable [] w a = unfold toggle_all in refl
  toggle_all-ok enable (s ∷ ss) w a =
      ap (λ x. x.0) (toggle_all-cons enable s ss w a)
      ∙ toggle_all-ok enable ss (after_one enable s w) a

  set_customer_status-found :
      (id status : String) (w : World) (r : CustomerRow)
      → Answers
      → find? (λ c. c.id == id) w.db.customers ≡ some r
      → set_customer_status id status w
        ≡ (ok tt, record w { db = marked id status w.db; tick = suc w.tick })
  unfolding set_customer_status mark_customer
  set_customer_status-found id status w r a found =
      let some_rows : eqb (count (λ c. c.id == id) w.db.customers) 0 ≡ false = ground (
        arith,
        find_passes (λ c. c.id == id) w.db.customers r found,
        count-of_find (λ c. c.id == id) w.db.customers r found,
      ) in
      rw (statement, a.clear w.tick, some_rows) refl

  get_customer-found :
      (id : String) (w : World) (r : CustomerRow)
      → Answers
      → find? (λ c. c.id == id) w.db.customers ≡ some r
      → get_customer id w ≡ (ok (scan_customer r), next w)
  unfolding get_customer
  get_customer-found id w r a found =
      rw (statement, a.clear w.tick, select_customer-found id w.db r found) refl

  -- While the database answers and the subscriptions of a customer can be listed: enabling or
  -- disabling that customer answers 200 with the new status, whatever the nodes say to it; exactly
  -- the subscriptions listed that have a tenant and a node on record become active, or suspended,
  -- the customer gets its status, and no table changes otherwise.
  pub toggle_customer-Toggled :
      (enable : Bool) (id : String) (subs : List Subscription) (r : CustomerRow) (w : World)
      → Answers
      → (list_subscriptions_by_customer id w).0 ≡ ok subs
      → find? (λ c. c.id == id) w.db.customers ≡ some r
      → ((toggle_customer enable id w).0
          ≡ ok (
              respond 200
                (customer (scan_customer (record r { status = customer_status enable })))))
        × ((toggle_customer enable id w).1.db
            ≡ marked id
                (customer_status enable)
                (with_rows (switched_row w.db subs) (switched_status enable) w.db))
  unfolding toggle_customer
  toggle_customer-Toggled enable id subs r w a listed found =
      let status = customer_status enable in
      let w3 = (toggle_all enable subs (next w)).1 in
      let tables = db-toggle_all enable subs (next w) a in
      let found3 : find? (λ c. c.id == id) w3.db.customers ≡ some r =
        ap (λ db. find? (λ c. c.id == id) db.customers) tables ∙ found in
      let w4 : World = record w3 { db = marked id status w3.db; tick = suc w3.tick } in
      let found4 : find? (λ c. c.id == id) w4.db.customers ≡ some (record r { status = status }) =
        find-update (λ c. c.id == id) (λ c. record c { status = status }) w3.db.customers
          (λ c. refl) r found3 in
      rw
        (
          listed,
          next-list_subscriptions_by_customer id w,
          toggle_all-ok enable subs (next w) a,
          set_customer_status-found id status w3 r a found3,
          get_customer-found id w4 (record r { status = status }) a found4,
        )
        (refl, ap (marked id status) tables)
