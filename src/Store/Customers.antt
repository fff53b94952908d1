-- ===== src/Store/Customers.antt =====
-- The customer statements of internal/store/store.go, internal/store/nodes.go and
-- internal/store/mutations.go.
use node_panel.Prelude.{
  ℕ, String, none, some, List, [], ◌∷◌, ◌++◌, map, Bool, not, ◌==◌, any, find?, select, count,
  update, if◌then◌else◌,
}
use node_panel.Domain.{Customer}
use node_panel.Schema.{Db, CustomerRow}
use node_panel.Runtime.{Env}
use node_panel.Runtime.Exec.{
  Err, not_found, failure, Result, ok, err, Exec, statement, new_uuid, unix_now, ◌>>=◌, ◌>>◌,
  return,
}
use node_panel.Store.Table.{null_string, unique, newest_first, query, check_affected}

abbrev pub scan_customer : CustomerRow → Customer
scan_customer r = record {
  id = r.id;
  name = r.name;
  status = r.status;
  external_ref = null_string r.external_ref;
  created_at = r.created_at;
}

abbrev pub has_id : String → CustomerRow → Bool
has_id id r = r.id == id

abbrev pub new_row : Customer → CustomerRow
new_row c = record {
  id = c.id;
  name = c.name;
  status = c.status;
  external_ref = some c.external_ref;
  created_at = c.created_at;
}

-- INSERT INTO customers
unfoldable pub insert_customer : Customer → Db → Result Err (Unit {0} × Db)
insert_customer c db =
    if any (has_id c.id) db.customers
    then err (failure unique)
    else ok (tt, record db { customers = db.customers ++ new_row c ∷ [] })

-- ON DELETE CASCADE from customers to subscriptions and api_keys
abbrev pub without_customer : String → Db → Db
without_customer id db = record db {
  customers = select (λ r. not (has_id id r)) db.customers;
  subscriptions = select (λ r. not (r.customer_id == id)) db.subscriptions;
  api_keys = select (λ r. not (r.customer_id == id)) db.api_keys;
}

-- The cascade is part of the enforcement: a connection without it deletes the row alone.
abbrev pub customer_removed : String → Db → Db
customer_removed id db =
    if db.shape.foreign_keys
    then without_customer id db
    else record db { customers = select (λ r. not (has_id id r)) db.customers }

-- DELETE FROM customers: only a row that is there is deleted.
unfoldable pub remove_customer : String → Db → Result Err (ℕ × Db)
remove_customer id db =
    if any (has_id id) db.customers
    then ok (count (has_id id) db.customers, customer_removed id db)
    else ok (0, db)

-- UPDATE customers SET status
unfoldable pub mark_customer : String → String → Db → Result Err (ℕ × Db)
mark_customer id status db = ok (
  count (has_id id) db.customers,
  record db { customers = update (has_id id) (λ r. record r { status = status }) db.customers },
)

unfoldable pub select_customer : String → Db → Result Err Customer
select_customer id db = elim (find? (has_id id) db.customers) [
  | none ↦ err not_found
  | some r ↦ ok (scan_customer r)
]

module _ ⦃env : Env⦄ where
  unfoldable pub create_customer : String → String → Exec Err Customer
  unfolding insert_customer
  create_customer name external_ref = do
    id ← new_uuid
    now ← unix_now
    let c : Customer = record {
      id = id;
      name = name;
      status = "active";
      external_ref = external_ref;
      created_at = now;
    }
    statement (insert_customer c)
    return c

  unfoldable pub list_customers : Exec Err (List Customer)
  list_customers =
      query (λ db. ok (map scan_customer (newest_first (λ r. r.created_at) db.customers)))

  unfoldable pub get_customer : String → Exec Err Customer
  unfolding select_customer
  get_customer id = query (select_customer id)

  unfoldable pub delete_customer : String → Exec Err (Unit {0})
  unfolding remove_customer
  delete_customer id = check_affected (statement (remove_customer id))

  unfoldable pub set_customer_status : String → String → Exec Err (Unit {0})
  unfolding mark_customer
  set_customer_status id status = check_affected (statement (mark_customer id status))
