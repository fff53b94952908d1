-- ===== src/Store/Retention.antt =====
-- `PruneHistory` of internal/store/subscriptions.go: what is left of the two history tables.
use node_panel.Prelude.{
  subst, true, Bool, not, select, All, All-select, select-select, ◌≡◌, ap, sym, ◌∙◌, arith,
}
use node_panel.Prelude.Int.{ℤ, sub64, ltb_ℤ}
use node_panel.Schema.{Db, UsageRecord, WebhookDelivery}
use node_panel.Runtime.{Env, World}
use node_panel.Runtime.Exec.{ok}
use node_panel.Store.History.{prune_history}

abbrev pub usage_recent : ℤ → UsageRecord → Bool
usage_recent cutoff r = not (ltb_ℤ r.ts cutoff)

abbrev pub delivery_recent : ℤ → WebhookDelivery → Bool
delivery_recent cutoff r = not (ltb_ℤ r.ts cutoff)

-- Nothing older than the cutoff is left, what is not older is left in its order, and the other
-- tables are as they were.
pub record Pruned (cutoff : ℤ) (w w' : World) : Type 0 where
  pub usage_young : All (λ r. usage_recent cutoff r ≡ true) w'.db.usage_records
  pub usage_kept :
      select (usage_recent cutoff) w'.db.usage_records
      ≡ select (usage_recent cutoff) w.db.usage_records
  pub deliveries_young : All (λ r. delivery_recent cutoff r ≡ true) w'.db.webhook_deliveries
  pub deliveries_kept :
      select (delivery_recent cutoff) w'.db.webhook_deliveries
      ≡ select (delivery_recent cutoff) w.db.webhook_deliveries
  pub customers : w'.db.customers ≡ w.db.customers
  pub subscriptions : w'.db.subscriptions ≡ w.db.subscriptions
  pub endpoints : w'.db.webhook_endpoints ≡ w.db.webhook_endpoints

module _ ⦃env : Env⦄ where
  abbrev pub pruned_db : ℤ → World → Db
  pruned_db cutoff w = record w.db {
    usage_records = select (usage_recent cutoff) w.db.usage_records;
    webhook_deliveries = select (delivery_recent cutoff) w.db.webhook_deliveries;
  }

  db-prune_history :
      (retention : ℤ) (w : World)
      → (prune_history retention w).0 ≡ ok tt
      → (prune_history retention w).1.db ≡ pruned_db (sub64 (env.clock w.tick) retention) w
  unfolding prune_history
  db-prune_history retention w h = ground arith

  -- A pruning that succeeds leaves, in both history tables, exactly the rows that are not older
  -- than the retention, in their order, and the customers, subscriptions and endpoints alone.
  pub prune_history-Pruned :
      (retention : ℤ) (w : World)
      → (prune_history retention w).0 ≡ ok tt
      → Pruned (sub64 (env.clock w.tick) retention) w (prune_history retention w).1
  prune_history-Pruned retention w h =
      let cutoff = sub64 (env.clock w.tick) retention in
      let done = db-prune_history retention w h in
      record {
        usage_young =
            subst (λ d. All (λ r. usage_recent cutoff r ≡ true) d.usage_records) (sym done)
              (All-select (usage_recent cutoff) w.db.usage_records);
        usage_kept =
            ap (λ d. select (usage_recent cutoff) d.usage_records) done
            ∙ select-select (usage_recent cutoff) w.db.usage_records;
        deliveries_young =
            subst (λ d. All (λ r. delivery_recent cutoff r ≡ true) d.webhook_deliveries) (sym done)
              (All-select (delivery_recent cutoff) w.db.webhook_deliveries);
        deliveries_kept =
            ap (λ d. select (delivery_recent cutoff) d.webhook_deliveries) done
            ∙ select-select (delivery_recent cutoff) w.db.webhook_deliveries;
        customers = ap (λ d. d.customers) done;
        subscriptions = ap (λ d. d.subscriptions) done;
        endpoints = ap (λ d. d.webhook_endpoints) done;
      }
