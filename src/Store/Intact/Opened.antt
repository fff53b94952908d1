-- ===== src/Store/Intact/Opened.antt =====
-- `Open` of internal/store/store.go: what it means for the integrity of the tables.
use node_panel.Prelude.{
  ◌⊎◌, Option-cases, ◌∙◌, String, Option, none, some, List, [], ◌∷◌, ◌++◌, true, ◌≡◌, refl, ap, sym,
  subst, inl, inr, arith, map, update, Bool-cases,
}
use node_panel.Prelude.Text.{is_empty, trim_space}
use node_panel.Schema.{
  Db, Shape, UsageShape, absent, constrained, plain, UsageRecord, NodeRow, SubscriptionRow,
}
use node_panel.Runtime.{Env, World, next}
use node_panel.Runtime.Exec.{or_else, ◌>>◌, Err, Result, ok, err, statement, attempt}
use node_panel.Runtime.Exec.Keeps.{
  Keeps, Allows, keeps_rules, Keeps-statement, Keeps-query, Keeps-if, Keeps-then, Keeps-bind,
  Keeps-or_else, Keeps-attempt, Keeps-return,
}
use node_panel.Store.Subscriptions.{has_id, new_sub_token}
use node_panel.Store.Setup.{
  Column, grpc_port, core_key, host_info, sub_token, api_key, fill, add_column, set_token,
  replace_token, set_rebuilt, set_usage, set_shape, rebuild_usage, rebuild_if, add_columns,
  tolerate, migrate_usage_records, backfill_all, backfill_tokens, read_rows, migrate, run_pieces,
  apply_schema, open_store, pragma, busy_timeout, wrap_error, columns_of, with_column, on_nodes,
  on_subscriptions, column_name, extend, named,
}
use node_panel.Store.Setup.Rebuild.{rebuild_usage-Left}
use node_panel.Store.Intact.{Intact}
use node_panel.Store.Intact.Inserted.{ok_db}
use node_panel.Store.Intact.Rows.{usage_records-Intact}
use node_panel.Store.Intact.Changed.{SameKeys, subscription_update-Allows, node_update-Allows}

set_shape-Intact :
    (f : Shape → Shape) {db : Db}
    → (f db.shape).foreign_keys ≡ db.shape.foreign_keys
    → Intact db
    → Intact (set_shape f db)
set_shape-Intact f same i = record {
  enforced = same ∙ i.enforced;
  customers = i.customers;
  plans = i.plans;
  nodes = i.nodes;
  subscriptions = i.subscriptions;
  api_keys = i.api_keys;
  usage_records = i.usage_records;
  endpoints = i.endpoints;
  deliveries = i.deliveries;
  owned = i.owned;
  planned = i.planned;
  placed = i.placed;
  keyed = i.keyed;
  addressed = i.addressed;
}

-- the tables on a connection that enforces foreign keys
abbrev pub enforcing : Db → Db
enforcing db = set_shape (λ s. record s { foreign_keys = true }) db

pub enforcing-Intact : {db : Db} → Intact db → Intact (enforcing db)
enforcing-Intact i = set_shape-Intact (λ s. record s { foreign_keys = true }) (sym i.enforced) i

-- intact with foreign keys enforced, or failed with the tables intact
abbrev pub Opened : Result Err (Unit {0}) × World → Type 0
Opened (r, w) = Intact w.db ⊎ ((e : Err) × (r ≡ err e) × Intact (enforcing w.db))

busy_timeout-Allows : Allows Intact {A = Unit {0}} (λ db. ok (tt, db))
busy_timeout-Allows = record { at = λ db db' a h i. subst Intact (ok_db h) i }

update_all : {A : Type 0} (f : A → A) (xs : List A) → update (λ _. true) f xs ≡ map f xs
update_all f [] = refl
update_all f (x ∷ xs) = ap (λ ys. f x ∷ ys) (update_all f xs)

on_nodes-Intact :
    (f : NodeRow → NodeRow) (db : Db)
    → ((r : NodeRow) → (f r).id ≡ r.id)
    → Intact db
    → Intact (on_nodes f db)
on_nodes-Intact f db same i =
    subst (λ rows. Intact (record db { nodes = rows })) (update_all f db.nodes)
      ((node_update-Allows (λ _. tt) (λ _. true) f same).at db _ tt refl i)

on_subscriptions-Intact :
    (f : SubscriptionRow → SubscriptionRow) (db : Db)
    → SameKeys f
    → Intact db
    → Intact (on_subscriptions f db)
on_subscriptions-Intact f db same i =
    subst (λ rows. Intact (record db { subscriptions = rows })) (update_all f db.subscriptions)
      ((subscription_update-Allows (λ _. tt) (λ _. true) f same).at db _ tt refl i)

fill-Intact : (c : Column) (db : Db) → Intact db → Intact (fill c db)
fill-Intact grpc_port db i = on_nodes-Intact _ db (λ r. refl) i
fill-Intact core_key db i = on_nodes-Intact _ db (λ r. refl) i
fill-Intact host_info db i = on_nodes-Intact _ db (λ r. refl) i
fill-Intact sub_token db i =
    on_subscriptions-Intact _ db
      (record { id = λ r. refl; customer = λ r. refl; plan = λ r. refl; node = λ r. refl }) i
fill-Intact api_key db i =
    on_subscriptions-Intact _ db
      (record { id = λ r. refl; customer = λ r. refl; plan = λ r. refl; node = λ r. refl }) i

with_column_same :
    (c : Column) (cs : List String) (s : Shape) → (with_column c cs s).foreign_keys ≡ s.foreign_keys
with_column_same grpc_port cs s = refl
with_column_same core_key cs s = refl
with_column_same host_info cs s = refl
with_column_same sub_token cs s = refl
with_column_same api_key cs s = refl

extend-Intact :
    (c : Column) (o : Option (List String)) (db db' : Db) (a : Unit {0})
    → extend c o db ≡ ok (a, db')
    → Intact db
    → Intact db'
extend-Intact c none db db' a h i = absurd (ground (arith, h))
extend-Intact c (some cs) db db' a h i = elim (Bool-cases (named (column_name c) cs)) [
  | inl e ↦ absurd (ground (arith, e, h))
  | inr e ↦ subst Intact (ok_db (rw e at h)) (
      set_shape-Intact (with_column c (cs ++ column_name c ∷ [])) (with_column_same c _ _)
        (fill-Intact c db i))
]

add_column-Allows : (c : Column) → Allows Intact (add_column c)
unfolding add_column
add_column-Allows c = record {
  at = λ db db' a h i. extend-Intact c (columns_of c db.shape) db db' a h i;
}

set_token-Allows : (token id : String) → Allows Intact (set_token token id)
unfolding set_token
set_token-Allows token id =
    subscription_update-Allows (λ _. tt) (has_id id) (replace_token token)
      (record { id = λ r. refl; customer = λ r. refl; plan = λ r. refl; node = λ r. refl })

rebuilt-Intact :
    (rows : Option (List UsageRecord)) {db : Db} → Intact db → Intact (set_rebuilt rows db)
rebuilt-Intact rows i = set_shape-Intact (λ s. record s { rebuilt = rows }) refl i

usage-Intact :
    (u : UsageShape) (rows : List UsageRecord) (db : Db)
    → Intact (record db { usage_records = rows })
    → Intact (set_usage u rows db)
usage-Intact u rows db i = set_shape-Intact (λ s. record s { usage = u }) refl i

module _ ⦃env : Env⦄ where
  rebuild_usage-Keeps : Keeps Intact rebuild_usage
  rebuild_usage-Keeps = record {
    at = λ w i. elim (rebuild_usage-Left w) [
      | inl e ↦ subst Intact (sym e) i
      | inr (inl e) ↦ subst Intact (sym e) (rebuilt-Intact _ i)
      | inr (inr (inl e)) ↦ subst Intact (sym e) (rebuilt-Intact _ i)
      | inr (inr (inr (inl e))) ↦ subst Intact (sym e) (
          usage-Intact absent [] (set_rebuilt (some w.db.usage_records) w.db)
            (usage_records-Intact (rebuilt-Intact _ i) [] tt))
      | inr (inr (inr (inr e))) ↦
          subst Intact (sym e)
            (usage-Intact plain w.db.usage_records (set_rebuilt none w.db) (rebuilt-Intact _ i))
    ];
  }

  rebuild_if-Keeps : (u : UsageShape) → Keeps Intact (rebuild_if u)
  rebuild_if-Keeps absent = Keeps-return tt
  rebuild_if-Keeps constrained = rebuild_usage-Keeps
  rebuild_if-Keeps plain = Keeps-return tt

  migrate_usage_records-Keeps : Keeps Intact migrate_usage_records
  unfolding migrate_usage_records
  migrate_usage_records-Keeps = search (keeps_rules, Keeps-query, rebuild_if-Keeps)

  tolerate-Keeps : (c : Column) (r : Result Err (Unit {0})) → Keeps Intact (tolerate c r)
  tolerate-Keeps c (ok _) = Keeps-return tt
  tolerate-Keeps c (err e) = search keeps_rules

  add_columns-Keeps : (cs : List Column) → Keeps Intact (add_columns cs)
  unfolding add_columns
  add_columns-Keeps [] = Keeps-return tt
  add_columns-Keeps (c ∷ cs) =
      Keeps-bind (attempt (statement (add_column c))) _
        (Keeps-attempt _ (Keeps-statement _ (add_column-Allows c)))
        (λ r.
          Keeps-then (tolerate c r) (add_columns cs) (tolerate-Keeps c r) (add_columns-Keeps cs))

  backfill_all-Keeps : (rs : List SubscriptionRow) → Keeps Intact (backfill_all rs)
  unfolding backfill_all new_sub_token
  backfill_all-Keeps [] = Keeps-return tt
  backfill_all-Keeps (r ∷ rs) = Keeps-bind new_sub_token _ (search keeps_rules) (λ token.
      Keeps-then (statement (set_token token r.id)) (backfill_all rs)
        (Keeps-statement _ (set_token-Allows token r.id)) (backfill_all-Keeps rs))

  read_rows-Keeps : {A : Type 0} (rows : List A) → Keeps Intact (read_rows rows)
  read_rows-Keeps rows = record { at = λ w i. i }

  backfill_tokens-Keeps : Keeps Intact backfill_tokens
  unfolding backfill_tokens
  backfill_tokens-Keeps = search (keeps_rules, Keeps-query, read_rows-Keeps, backfill_all-Keeps)

  migrate-Keeps : Keeps Intact migrate
  unfolding migrate
  migrate-Keeps =
      search (keeps_rules, add_columns-Keeps, migrate_usage_records-Keeps, backfill_tokens-Keeps)

  module _ (exec_sql : String → Db → Result Err (Unit {0} × Db))
      (schema_kept : (text : String) → Allows Intact (exec_sql text)) where
    run_pieces-Keeps : (pieces : List String) → Keeps Intact (run_pieces exec_sql pieces)
    unfolding run_pieces
    run_pieces-Keeps [] = Keeps-return tt
    run_pieces-Keeps (piece ∷ pieces) =
        let rest = run_pieces-Keeps pieces in
        Keeps-if (is_empty (trim_space piece)) _ _ rest (
          Keeps-then _ (run_pieces exec_sql pieces)
            (Keeps-or_else _ _ (Keeps-statement _ (schema_kept (trim_space piece)))) rest)

    -- what follows the pragma that matters
    rest-Keeps :
        (schema : String)
        → Keeps Intact (do
          pragma busy_timeout
          or_else (apply_schema exec_sql schema) (wrap_error "apply schema")
          or_else migrate (wrap_error "migrate"))
    unfolding pragma apply_schema
    rest-Keeps schema =
        search (keeps_rules, Keeps-statement, busy_timeout-Allows, run_pieces-Keeps, migrate-Keeps)
          depth 12

    -- `Open` ends with foreign keys enforced, or fails; the tables are intact either way.
    pub open_store-Opened :
        (schema : String) (w : World)
        → Intact (enforcing w.db)
        → Opened (open_store exec_sql schema w)
    unfolding open_store pragma
    open_store-Opened schema w i = elim (Option-cases (env.db_fault w.tick)) [
      | inr (text, e) ↦ rw (statement, e) (inr (_, refl, i))
      | inl e ↦ elim (Option-cases (env.db_fault (next w).tick)) [
        | inr (text, k) ↦ rw (statement, e, k) (inr (_, refl, i))
        | inl k ↦
            rw (statement, e, k)
              (inl ((rest-Keeps schema).at (record (next (next w)) { db = enforcing w.db }) i))
      ]
    ]
