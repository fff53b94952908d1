-- ===== src/Store/Setup/Columns.antt =====
-- The first part of `migrate` of internal/store/store.go: the columns that an older schema lacked.
use node_panel.Prelude.{
  ℕ, String, Option, none, some, List, [], ◌∷◌, ◌++◌, All, subst, ◌≡◌, ◌⊎◌, inl, inr, Bool, true,
  false, refl, ap, sym, ◌∙◌, arith, map, map-map, any, any-append, any-grows, Bool-cases,
  Option-cases, eq_refl, ◌==◌,
}
use node_panel.Prelude.Text.{◌<>◌, contains, starts_with}
use node_panel.Schema.{Db, Shape, NodeRow, SubscriptionRow}
use node_panel.Runtime.{Env, World, next}
use node_panel.Runtime.Exec.{failure, ok, err, statement}
use node_panel.Store.Setup.{
  Column, grpc_port, core_key, host_info, sub_token, api_key, column_name, columns_of, named,
  add_column, add_columns, set_shape, with_column, fill, on_nodes, on_subscriptions,
}

abbrev pub has : String → Option (List String) → Bool
has name none = false
has name (some cs) = named name cs

abbrev pub Present : Column → Db → Type 0
Present c db = has (column_name c) (columns_of c db.shape) ≡ true

-- what the migration leaves of a row
abbrev pub old_node : NodeRow → NodeRow
old_node r = record r {
  grpc_port = node_panel.Prelude.Int.pos 0;
  core_key = none;
  host_info = none;
}

abbrev pub old_subscription : SubscriptionRow → SubscriptionRow
old_subscription r = record r { sub_token = none; api_key = none }

-- No row is lost, and no column but those that the migration adds or fills has changed.
pub record SameRows (db db' : Db) : Type 0 where
  pub customers : db'.customers ≡ db.customers
  pub plans : db'.plans ≡ db.plans
  pub nodes : map old_node db'.nodes ≡ map old_node db.nodes
  pub subscriptions : map old_subscription db'.subscriptions ≡ map old_subscription db.subscriptions
  pub api_keys : db'.api_keys ≡ db.api_keys
  pub usage_records : db'.usage_records ≡ db.usage_records
  pub webhook_endpoints : db'.webhook_endpoints ≡ db.webhook_endpoints
  pub webhook_deliveries : db'.webhook_deliveries ≡ db.webhook_deliveries

pub SameRows-refl : (db : Db) → SameRows db db
SameRows-refl db = record {
  customers = refl;
  plans = refl;
  nodes = refl;
  subscriptions = refl;
  api_keys = refl;
  usage_records = refl;
  webhook_endpoints = refl;
  webhook_deliveries = refl;
}

pub SameRows-trans : {a b c : Db} → SameRows a b → SameRows b c → SameRows a c
SameRows-trans p q = record {
  customers = q.customers ∙ p.customers;
  plans = q.plans ∙ p.plans;
  nodes = q.nodes ∙ p.nodes;
  subscriptions = q.subscriptions ∙ p.subscriptions;
  api_keys = q.api_keys ∙ p.api_keys;
  usage_records = q.usage_records ∙ p.usage_records;
  webhook_endpoints = q.webhook_endpoints ∙ p.webhook_endpoints;
  webhook_deliveries = q.webhook_deliveries ∙ p.webhook_deliveries;
}

-- Columns may come, never go, and the table of the usage history is left alone.
pub record Grown (db db' : Db) : Type 0 where
  pub columns : (d : Column) → Present d db → Present d db'
  pub usage : db'.shape.usage ≡ db.shape.usage
  pub rebuilt : db'.shape.rebuilt ≡ db.shape.rebuilt
  pub same_rows : SameRows db db'

Grown-refl : (db : Db) → Grown db db
Grown-refl db = record {
  columns = λ d h. h;
  usage = refl;
  rebuilt = refl;
  same_rows = SameRows-refl db;
}

Grown-trans : {a b c : Db} → Grown a b → Grown b c → Grown a c
Grown-trans p q = record {
  columns = λ d h. q.columns d (p.columns d h);
  usage = q.usage ∙ p.usage;
  rebuilt = q.rebuilt ∙ p.rebuilt;
  same_rows = SameRows-trans p.same_rows q.same_rows;
}

abbrev grow : Column → List String → Db → Db
grow c cs db = set_shape (with_column c (cs ++ column_name c ∷ [])) (fill c db)

grow-Present : (c : Column) (cs : List String) (db : Db) → Present c (grow c cs db)
grow-Present grpc_port cs db = any-append (λ x. x == "grpc_port") cs "grpc_port" refl
grow-Present core_key cs db = any-append (λ x. x == "core_key") cs "core_key" refl
grow-Present host_info cs db = any-append (λ x. x == "host_info") cs "host_info" refl
grow-Present sub_token cs db = any-append (λ x. x == "sub_token") cs "sub_token" refl
grow-Present api_key cs db = any-append (λ x. x == "api_key") cs "api_key" refl

columns-grow :
    (c d : Column) (cs : List String) (db : Db)
    → columns_of c db.shape ≡ some cs
    → Present d db
    → Present d (grow c cs db)
columns-grow c d cs db h k =
    ground (arith, h, k, any-grows (λ (x : String). x == column_name d) cs (column_name c))

old_nodes :
    (f : NodeRow → NodeRow) (db : Db)
    → ((r : NodeRow) → old_node (f r) ≡ old_node r)
    → SameRows db (on_nodes f db)
old_nodes f db same = record {
  customers = refl;
  plans = refl;
  nodes = map-map f old_node db.nodes same;
  subscriptions = refl;
  api_keys = refl;
  usage_records = refl;
  webhook_endpoints = refl;
  webhook_deliveries = refl;
}

old_subscriptions :
    (f : SubscriptionRow → SubscriptionRow) (db : Db)
    → ((r : SubscriptionRow) → old_subscription (f r) ≡ old_subscription r)
    → SameRows db (on_subscriptions f db)
old_subscriptions f db same = record {
  customers = refl;
  plans = refl;
  nodes = refl;
  subscriptions = map-map f old_subscription db.subscriptions same;
  api_keys = refl;
  usage_records = refl;
  webhook_endpoints = refl;
  webhook_deliveries = refl;
}

fill-SameRows : (c : Column) (db : Db) → SameRows db (fill c db)
fill-SameRows grpc_port db = old_nodes _ db (λ r. refl)
fill-SameRows core_key db = old_nodes _ db (λ r. refl)
fill-SameRows host_info db = old_nodes _ db (λ r. refl)
fill-SameRows sub_token db = old_subscriptions _ db (λ r. refl)
fill-SameRows api_key db = old_subscriptions _ db (λ r. refl)

shaped-SameRows : (f : Shape → Shape) {a b : Db} → SameRows a b → SameRows a (set_shape f b)
shaped-SameRows f s = record {
  customers = s.customers;
  plans = s.plans;
  nodes = s.nodes;
  subscriptions = s.subscriptions;
  api_keys = s.api_keys;
  usage_records = s.usage_records;
  webhook_endpoints = s.webhook_endpoints;
  webhook_deliveries = s.webhook_deliveries;
}

grow-Grown :
    (c : Column) (cs : List String) (db : Db)
    → columns_of c db.shape ≡ some cs
    → Grown db (grow c cs db)
grow-Grown c cs db h = record {
  columns = λ d k. columns-grow c d cs db h k;
  usage = ground arith;
  rebuilt = ground arith;
  same_rows = shaped-SameRows (with_column c (cs ++ column_name c ∷ [])) (fill-SameRows c db);
}

-- how the statement ends
abbrev Outcome : Column → Db → Type 0
Outcome c db =
    (add_column c db ≡ err (failure "no such table"))
    ⊎ (Present c db
        × (add_column c db ≡ err (failure ("duplicate column name: " <> column_name c))))
    ⊎ ((cs : List String) × (columns_of c db.shape ≡ some cs)
        × (add_column c db ≡ ok (tt, grow c cs db)))

add_column-Outcome : (c : Column) (db : Db) → Outcome c db
unfolding add_column
add_column-Outcome c db = elim (Option-cases (columns_of c db.shape)) [
  | inl e ↦ inl (rw e refl)
  | inr (cs, e) ↦ elim (Bool-cases (named (column_name c) cs)) [
    | inl k ↦ inr (inl (rw e k, rw (e, k) refl))
    | inr k ↦ inr (inr (cs, e, rw (e, k) refl))
  ]
]

pub repeated :
    (c : Column) → contains "duplicate column" ("duplicate column name: " <> column_name c) ≡ true
unfolding contains starts_with
repeated grpc_port = refl
repeated core_key = refl
repeated host_info = refl
repeated sub_token = refl
repeated api_key = refl

not_there : contains "duplicate column" "no such table" ≡ false
unfolding contains starts_with
not_there = refl

module _ ⦃env : Env⦄ where
  -- No error of the driver reads like that of a column which is there already.
  pub record Genuine : Type 0 where
    pub apart :
        (t : ℕ) (text : String)
        → env.db_fault t ≡ some text
        → contains "duplicate column" text ≡ false

  abbrev Step : Column → List Column → World → Type 0
  Step c cs w =
      (w' : World) × Present c w'.db
      × Grown w.db w'.db
      × ((add_columns (c ∷ cs) w) ≡ add_columns cs w')

  Step-ok :
      (c : Column) (cs : List Column) (w : World)
      → Genuine
      → (add_columns (c ∷ cs) w).0 ≡ ok tt
      → Step c cs w
  unfolding add_columns
  Step-ok c cs w g = elim (Option-cases (env.db_fault w.tick)) [
    | inr (text, e) ↦
        rw (add_columns, statement, e, g.apart w.tick text e) (λ h. absurd (ground arith))
    | inl e ↦ elim (add_column-Outcome c w.db) [
      | inl none_there ↦
          rw (add_columns, statement, e, none_there, not_there) (λ h. absurd (ground arith))
      | inr (inl (there, dup)) ↦
          rw (add_columns, statement, e, dup, repeated c)
            (λ h. (next w, there, Grown-refl w.db, refl))
      | inr (inr (old, k, grew)) ↦
          rw (add_columns, statement, e, grew)
            (λ h. (
              record (next w) { db = grow c old w.db },
              grow-Present c old w.db,
              grow-Grown c old w.db k,
              refl,
            ))
    ]
  ]

  pub add_columns-ok :
      (cs : List Column) (w : World)
      → Genuine
      → (add_columns cs w).0 ≡ ok tt
      → Grown w.db (add_columns cs w).1.db × All (λ c. Present c (add_columns cs w).1.db) cs
  add_columns-ok [] w g h = unfold add_columns in (Grown-refl w.db, tt)
  add_columns-ok (c ∷ cs) w g h =
      let (w', there, grown, later) = Step-ok c cs w g h in
      let (more, all) = add_columns-ok cs w' g (subst (λ x. x.0 ≡ ok tt) later h) in
      subst (λ x. Grown w.db x.1.db × All (λ d. Present d x.1.db) (c ∷ cs)) (sym later)
        (Grown-trans grown more, (more.columns c there, all))
