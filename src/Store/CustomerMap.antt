-- ===== src/Store/CustomerMap.antt =====
-- The customers of internal/store as what its callers see of them: a finite map from ids to
-- customers.
pub mod Calls
use node_panel.Prelude.{
  Bool, String, Option, none, some, [], ◌∷◌, ◌++◌, eqb, eq_iff, update, ◌≡◌, ◌≢◌, ◌⊎◌, inl, inr,
  ◌==◌, refl, ap, sym, ◌∙◌, true, false, any, arith, if◌then◌else◌, Bool-cases, Option-cases, count,
  count-of_any, count-of_not_any,
}
use node_panel.Domain.{Customer}
use node_panel.Schema.{Db, CustomerRow}
use node_panel.Runtime.{Env, World, next}
use node_panel.Runtime.Exec.{Err, not_found, failure, Result, ok, err, statement}
use node_panel.Store.Customers.{
  create_customer, delete_customer, set_customer_status, get_customer, insert_customer, new_row,
  without_customer, remove_customer, mark_customer, select_customer, scan_customer, has_id,
}
use node_panel.Store.Table.{unique}
use node_panel.Store.Keyed.{
  at_key, changed, at_key-none, at_key-some, at_key-append, at_key-select, at_key-update,
}

abbrev pub shown : Option CustomerRow → Option Customer
shown none = none
shown (some r) = some (scan_customer r)

abbrev pub view : Db → String → Option Customer
view db id = shown (at_key (λ r. r.id) id db.customers)

-- the operations of a finite map
abbrev pub put : Customer → (String → Option Customer) → String → Option Customer
put c m k = if c.id == k then some c else m k

abbrev pub drop : String → (String → Option Customer) → String → Option Customer
drop id m k = if id == k then none else m k

abbrev pub with_status : String → Option Customer → Option Customer
with_status status none = none
with_status status (some c) = some (record c { status = status })

abbrev pub mark : String → String → (String → Option Customer) → String → Option Customer
mark id status m k = if id == k then with_status status (m k) else m k

abbrev pub Same : World → World → Type 0
Same w w' = (k : String) → view w'.db k ≡ view w.db k

module _ (w : World) where
  abbrev pub Created : Result Err Customer × World → Type 0
  Created (r, w') =
      ((c : Customer) × (r ≡ ok c)
        × (view w.db c.id ≡ none)
        × ((k : String) → view w'.db k ≡ put c (view w.db) k))
      ⊎ ((e : Err) × (r ≡ err e) × Same w w')

  -- A call on one id succeeds on a customer that is there and says so when there is none.
  abbrev pub Edited :
      String
      → ((String → Option Customer) → String → Option Customer)
      → Result Err (Unit {0}) × World
      → Type 0
  Edited id op (r, w') =
      ((r ≡ ok tt) × (view w.db id ≢ none) × ((k : String) → view w'.db k ≡ op (view w.db) k))
      ⊎ ((r ≡ err not_found) × (view w.db id ≡ none) × Same w w')
      ⊎ ((text : String) × (r ≡ err (failure text)) × Same w w')

  abbrev pub Got : String → Result Err Customer × World → Type 0
  Got id (r, w') =
      ((r ≡ err not_found) × (view w.db id ≡ none) × Same w w')
      ⊎ ((c : Customer) × (r ≡ ok c) × (view w.db id ≡ some c) × Same w w')
      ⊎ ((text : String) × (r ≡ err (failure text)) × Same w w')
