-- ===== src/Store/CustomerMap/Calls.antt =====
-- The customer calls of internal/store against the finite map.
use node_panel.Prelude.{
  Bool, String, Option, none, some, [], ◌∷◌, ◌++◌, eqb, eq_iff, update, ◌≡◌, ◌≢◌, inl, inr, ◌==◌,
  refl, ap, sym, ◌∙◌, true, false, any, arith, if◌then◌else◌, Bool-cases, Option-cases, count,
  count-of_any, count-of_not_any,
}
use node_panel.Domain.{Customer}
use node_panel.Schema.{Db, CustomerRow}
use node_panel.Runtime.{Env, World, next}
use node_panel.Runtime.Exec.{not_found, failure, ok, err, statement}
use node_panel.Store.Customers.{
  create_customer, delete_customer, set_customer_status, get_customer, insert_customer, new_row,
  without_customer, customer_removed, remove_customer, mark_customer, select_customer,
  scan_customer, has_id,
}
use node_panel.Store.Table.{unique}
use node_panel.Store.Keyed.{
  at_key, changed, at_key-none, at_key-some, at_key-append, at_key-select, at_key-update,
}
use node_panel.Store.CustomerMap.{shown, view, put, drop, mark, with_status, Created, Edited, Got}

shown-if :
    (b : Bool) (x y : Option CustomerRow)
    → shown (if b then x else y) ≡ (if b then shown x else shown y)
shown-if true x y = refl
shown-if false x y = refl

shown-changed :
    (status : String) (o : Option CustomerRow)
    → shown (changed (λ r. r.id) (λ r. record r { status = status }) o)
      ≡ with_status status (shown o)
shown-changed status none = refl
shown-changed status (some r) = refl

view-some : (id : String) (db : Db) → any (has_id id) db.customers ≡ true → view db id ≢ none
view-some id db there gone =
    let (r, e) = at_key-some (λ r. r.id) id db.customers there in ground (arith, ap shown e, gone)

view-none : (id : String) (db : Db) → any (has_id id) db.customers ≡ false → view db id ≡ none
view-none id db h = ap shown (at_key-none (λ r. r.id) id db.customers h)

abbrev with_row : CustomerRow → Db → Db
with_row r db = record db { customers = db.customers ++ r ∷ [] }

view-with_row :
    (c : Customer) (db : Db) (k : String)
    → any (has_id c.id) db.customers ≡ false
    → view (with_row (new_row c) db) k ≡ put c (view db) k
view-with_row c db k fresh =
    ap shown (at_key-append (λ r. r.id) k db.customers (new_row c) fresh) ∙ shown-if (c.id == k) _ _

view-without_customer :
    (id : String) (db : Db) (k : String) → view (without_customer id db) k ≡ drop id (view db) k
view-without_customer id db k =
    ap shown (at_key-select (λ r. r.id) k id db.customers) ∙ shown-if (id == k) _ _

view-customer_removed :
    (id : String) (db : Db) (k : String) → view (customer_removed id db) k ≡ drop id (view db) k
view-customer_removed id db k = elim (Bool-cases db.shape.foreign_keys) [
  | inl e ↦ rw e (view-without_customer id db k)
  | inr e ↦ rw e (view-without_customer id db k)
]

abbrev marked : String → String → Db → Db
marked id status db = record db {
  customers = update (has_id id) (λ r. record r { status = status }) db.customers;
}

-- Marking a customer that is not there changes nothing.
unmarked :
    (id status : String) (db : Db) (k : String)
    → any (has_id id) db.customers ≡ false
    → mark id status (view db) k ≡ view db k
unmarked id status db k h = elim (Bool-cases (id == k)) [
  | inl e ↦
      let gone : view db k ≡ none = ap (view db) (sym ((eq_iff id k).0 e)) ∙ view-none id db h in
      rw (e, gone) refl
  | inr e ↦ rw e refl
]

view-marked :
    (id status : String) (db : Db) (k : String)
    → view (marked id status db) k ≡ mark id status (view db) k
view-marked id status db k =
    ap shown
      (at_key-update (λ r. r.id) k id (λ r. record r { status = status }) db.customers (λ r. refl))
    ∙ shown-if (id == k) _ _
    ∙ ap (λ o. if id == k then o else view db k)
        (shown-changed status (at_key (λ r. r.id) k db.customers))

pub select_customer-found :
    (id : String) (db : Db) (r : CustomerRow)
    → at_key (λ r. r.id) id db.customers ≡ some r
    → select_customer id db ≡ ok (scan_customer r)
unfolding select_customer
select_customer-found id db r h = rw (select_customer, h) refl

select_customer-missing :
    (id : String) (db : Db)
    → at_key (λ r. r.id) id db.customers ≡ none
    → select_customer id db ≡ err not_found
unfolding select_customer
select_customer-missing id db h = rw (select_customer, h) refl

module _ ⦃env : Env⦄ where
  create_customer-Created : (name ref : String) (w : World) → Created w (create_customer name ref w)
  unfolding create_customer insert_customer
  create_customer-Created name ref w =
      let c : Customer = record {
        id = env.uuid w.tick;
        name = name;
        status = "active";
        external_ref = ref;
        created_at = env.clock (next w).tick;
      } in
      elim (Option-cases (env.db_fault (next (next w)).tick)) [
        | inr (text, e) ↦ rw (statement, e) (inr (failure text, refl, λ k. refl))
        | inl e ↦ elim (Bool-cases (any (has_id c.id) w.db.customers)) [
          | inl t ↦ rw (statement, e, t) (inr (failure unique, refl, λ k. refl))
          | inr t ↦
              rw (statement, e, t)
                (inl (c, refl, view-none c.id w.db t, λ k. view-with_row c w.db k t))
        ]
      ]

  delete_customer-Edited : (id : String) (w : World) → Edited w id (drop id) (delete_customer id w)
  unfolding delete_customer remove_customer
  delete_customer-Edited id w = elim (Option-cases (env.db_fault w.tick)) [
    | inr (text, e) ↦ rw (statement, e) (inr (inr (text, refl, λ k. refl)))
    | inl e ↦ elim (Bool-cases (any (has_id id) w.db.customers)) [
      | inl t ↦
          let some_rows : eqb (count (has_id id) w.db.customers) 0 ≡ false =
            ground (arith, count-of_any (has_id id) w.db.customers t) in
          rw (statement, e, t, some_rows)
            (inl (refl, view-some id w.db t, view-customer_removed id w.db))
      | inr t ↦ rw (statement, e, t) (inr (inl (refl, view-none id w.db t, λ k. refl)))
    ]
  ]

  set_customer_status-Edited :
      (id status : String) (w : World)
      → Edited w id (mark id status) (set_customer_status id status w)
  unfolding set_customer_status mark_customer
  set_customer_status-Edited id status w = elim (Option-cases (env.db_fault w.tick)) [
    | inr (text, e) ↦ rw (statement, e) (inr (inr (text, refl, λ k. refl)))
    | inl e ↦ elim (Bool-cases (any (has_id id) w.db.customers)) [
      | inl t ↦
          let some_rows : eqb (count (has_id id) w.db.customers) 0 ≡ false =
            ground (arith, count-of_any (has_id id) w.db.customers t) in
          rw (statement, e, some_rows) (inl (refl, view-some id w.db t, view-marked id status w.db))
      | inr t ↦
          rw (statement, e, count-of_not_any (has_id id) w.db.customers t)
            (inr (
              inl (
                refl,
                view-none id w.db t,
                λ k. view-marked id status w.db k ∙ unmarked id status w.db k t,
              )))
    ]
  ]

  get_customer-Got : (id : String) (w : World) → Got w id (get_customer id w)
  unfolding get_customer
  get_customer-Got id w = elim (Option-cases (env.db_fault w.tick)) [
    | inr (text, e) ↦ rw (statement, e) (inr (inr (text, refl, λ k. refl)))
    | inl e ↦ elim (Option-cases (at_key (λ r. r.id) id w.db.customers)) [
      | inl h ↦
          rw (statement, e, select_customer-missing id w.db h) (inl (refl, ap shown h, λ k. refl))
      | inr (r, h) ↦
          rw (statement, e, select_customer-found id w.db r h)
            (inr (inl (scan_customer r, refl, ap shown h, λ k. refl)))
    ]
  ]

  -- To its callers the table of customers is a finite map. Creating a customer puts it under a free
  -- id or changes nothing; deleting and marking one take it out and change its status, or change
  -- nothing and say "not found" just when it is not there; reading gives what the map holds or says
  -- "not found"; and a call that the driver fails changes nothing.
  pub customers-CustomerMap :
      (name ref id status : String) (w : World)
      → Created w (create_customer name ref w)
        × Edited w id (drop id) (delete_customer id w)
        × Edited w id (mark id status) (set_customer_status id status w)
        × Got w id (get_customer id w)
  customers-CustomerMap name ref id status w = (
    create_customer-Created name ref w,
    delete_customer-Edited id w,
    set_customer_status-Edited id status w,
    get_customer-Got id w,
  )
