-- ===== src/Store/Setup/Migrated.antt =====
-- What `migrate` of internal/store/store.go leaves, when it succeeds and when it cannot.
use node_panel.Prelude.{
  none, ◌≡◌, ◌≢◌, false, refl, ap, sym, ◌∙◌, arith, All, All-map, subst, map, map-map,
}
use node_panel.Schema.{Db, UsageShape, absent, constrained, plain}
use node_panel.Runtime.{Env, World, next}
use node_panel.Runtime.Exec.{Err, Result, ok, ◌>>◌}
use node_panel.Runtime.Exec.Ends.{bind-ok}
use node_panel.Store.Table.{query}
use node_panel.Store.Setup.{
  migrate, add_columns, added_columns, migrate_usage_records, backfill_tokens, rebuild_if,
  lacks_token, set_usage, set_rebuilt, Column, grpc_port, core_key, host_info, sub_token, api_key,
}
use node_panel.Store.Setup.Columns.{
  Present, SameRows, SameRows-refl, SameRows-trans, old_node, old_subscription, Genuine,
  add_columns-ok,
}
use node_panel.Store.Setup.Rebuild.{rebuild_usage-ok}
use node_panel.Store.Setup.Backfill.{
  Uuids, WholeRows, Backfilled, backfill_tokens-ok, without_token,
}

module _ ⦃env : Env⦄ where
  abbrev Settled : Db → Db → Type 0
  Settled db db' =
      (db'.shape.usage ≢ constrained)
      × SameRows db db'
      × (db'.shape.node_columns ≡ db.shape.node_columns)
      × (db'.shape.subscription_columns ≡ db.shape.subscription_columns)

  rebuild_if-Settled :
      (u : UsageShape) (w : World)
      → w.db.shape.usage ≡ u
      → (rebuild_if u w).0 ≡ ok tt
      → Settled w.db (rebuild_if u w).1.db
  rebuild_if-Settled absent w e h = (ground (arith, e), SameRows-refl w.db, refl, refl)
  rebuild_if-Settled plain w e h = (ground (arith, e), SameRows-refl w.db, refl, refl)
  rebuild_if-Settled constrained w e h =
      subst (Settled w.db) (sym (rebuild_usage-ok w h).1) (ground arith, rows, refl, refl)
    where
      rows : SameRows w.db (set_usage plain w.db.usage_records (set_rebuilt none w.db))
      rows = record {
        customers = refl;
        plans = refl;
        nodes = refl;
        subscriptions = refl;
        api_keys = refl;
        usage_records = refl;
        webhook_endpoints = refl;
        webhook_deliveries = refl;
      }

  abbrev usage_shape : Db → Result Err UsageShape
  usage_shape db = ok db.shape.usage

  usage_shape-ok :
      (w : World) {u : UsageShape}
      → (query usage_shape w).0 ≡ ok u
      → (w.db.shape.usage ≡ u) × ((query usage_shape w).1 ≡ next w)
  usage_shape-ok w h = ground arith

  migrate_usage_records-Settled :
      (w : World)
      → (migrate_usage_records w).0 ≡ ok tt
      → Settled w.db (migrate_usage_records w).1.db
  unfolding migrate_usage_records
  migrate_usage_records-Settled w h =
      let (u, asked, rest, ends) = bind-ok (query usage_shape) rebuild_if w h in
      let (same, after) = usage_shape-ok w asked in
      let move = ap (rebuild_if u) after in
      subst (λ x. Settled w.db x.db) (sym (ends ∙ ap (λ x. x.1) move))
        (rebuild_if-Settled u (next w) same (subst (λ x. x.0 ≡ ok tt) move rest))

  Present-same :
      (c : Column) (db db' : Db)
      → (db'.shape.node_columns ≡ db.shape.node_columns)
      → (db'.shape.subscription_columns ≡ db.shape.subscription_columns)
      → Present c db
      → Present c db'
  Present-same grpc_port db db' n s h = rw n h
  Present-same core_key db db' n s h = rw n h
  Present-same host_info db db' n s h = rw n h
  Present-same sub_token db db' n s h = rw s h
  Present-same api_key db db' n s h = rw s h

  Backfilled-SameRows : {db db' : Db} → Backfilled db db' → SameRows db db'
  Backfilled-SameRows {db} {db'} b = record {
    customers = ap (λ d. d.customers) b.1.others;
    plans = ap (λ d. d.plans) b.1.others;
    nodes = ap (λ d. map old_node d.nodes) b.1.others;
    subscriptions =
        sym (map-map without_token old_subscription db'.subscriptions (λ r. refl))
        ∙ ap (map old_subscription) b.1.rows
        ∙ map-map without_token old_subscription db.subscriptions (λ r. refl);
    api_keys = ap (λ d. d.api_keys) b.1.others;
    usage_records = ap (λ d. d.usage_records) b.1.others;
    webhook_endpoints = ap (λ d. d.webhook_endpoints) b.1.others;
    webhook_deliveries = ap (λ d. d.webhook_deliveries) b.1.others;
  }

  -- The file is in the shape that the rest of the panel relies on, and has lost no row.
  pub record Migrated (db db' : Db) : Type 0 where
    pub columns : All (λ c. Present c db') added_columns
    pub usage : db'.shape.usage ≢ constrained
    pub tokens : All (λ r. lacks_token r ≡ false) db'.subscriptions
    pub rows : SameRows db db'

  -- A migration that succeeds leaves every column, a usage history without the foreign key, and a
  -- token on every subscription; no row is lost, and no other column has changed, whatever the
  -- shape it found. Driver errors do not read like a duplicate column; a uuid is more than dashes,
  -- and the reading of the rows without a token does not break off.
  pub migrate-Migrated :
      (w : World)
      → Genuine
      → Uuids
      → WholeRows
      → (migrate w).0 ≡ ok tt
      → Migrated w.db (migrate w).1.db
  unfolding migrate
  migrate-Migrated w g u whole h =
      let (_, ok1, later, ends1) =
        bind-ok (add_columns added_columns) (λ _. migrate_usage_records >> backfill_tokens) w h in
      let w1 = (add_columns added_columns w).1 in
      let (_, ok2, ok3, ends2) = bind-ok migrate_usage_records (λ _. backfill_tokens) w1 later in
      let w2 = (migrate_usage_records w1).1 in
      let (grown, columns) = add_columns-ok added_columns w g ok1 in
      let (usage, rows, nodes, subs) = migrate_usage_records-Settled w1 ok2 in
      let db3 = (backfill_tokens w2).1.db in
      let filled = backfill_tokens-ok w2 u whole ok3 in
      let done : Migrated w.db (backfill_tokens w2).1.db = record {
        columns =
            All-map (λ c. Present c w1.db) (λ c. Present c db3)
              (λ c k.
                Present-same c w2.db db3 (ap (λ d. d.shape.node_columns) filled.1.others)
                  (ap (λ d. d.shape.subscription_columns) filled.1.others)
                  (Present-same c w1.db w2.db nodes subs k))
              added_columns columns;
        usage = λ e. usage (sym (ap (λ d. d.shape.usage) filled.1.others) ∙ e);
        tokens = filled.0;
        rows = SameRows-trans grown.same_rows (SameRows-trans rows (Backfilled-SameRows filled));
      } in
      subst (λ x. Migrated w.db x.db) (sym (ends1 ∙ ends2)) done
