-- ===== src/Store/History.antt =====
-- The append-only tables of internal/store/subscriptions.go: `RecordUsage`, `CountUsageRecords`,
-- `PruneHistory`.
use node_panel.Prelude.{
  ℕ, ◌*◌, String, List, [], ◌∷◌, ◌++◌, not, length, any, select, ◌==◌, if◌then◌else◌,
}
use node_panel.Prelude.Int.{ℤ, pos, ltb_ℤ, sub64}
use node_panel.Schema.{Db, UsageRecord, WebhookDelivery}
use node_panel.Runtime.{Env}
use node_panel.Runtime.Exec.{
  Err, failure, Result, ok, err, Exec, statement, new_uuid, unix_now, ◌>>=◌, ◌>>◌,
}
use node_panel.Store.Table.{unique, query}

unfoldable pub insert_usage : UsageRecord → Db → Result Err (Unit {0} × Db)
insert_usage u db =
    if any (λ r. r.id == u.id) db.usage_records
    then err (failure unique)
    else ok (tt, record db { usage_records = db.usage_records ++ u ∷ [] })

-- DELETE … WHERE ts < ?
abbrev pub prune_usage : ℤ → List UsageRecord → List UsageRecord
prune_usage cutoff rows = select (λ r. not (ltb_ℤ r.ts cutoff)) rows

abbrev pub prune_deliveries : ℤ → List WebhookDelivery → List WebhookDelivery
prune_deliveries cutoff rows = select (λ r. not (ltb_ℤ r.ts cutoff)) rows

module _ ⦃env : Env⦄ where
  unfoldable pub record_usage : String → String → ℕ → ℤ → Exec Err (Unit {0})
  unfolding insert_usage
  record_usage tenant_id node_id period_id used_cumulative = do
    id ← new_uuid
    now ← unix_now
    let u : UsageRecord = record {
      id = id;
      tenant_id = tenant_id;
      node_id = node_id;
      period_id = period_id;
      ts = now;
      used_bytes_cumulative = used_cumulative;
    }
    statement (insert_usage u)

  unfoldable pub count_usage_records : Exec Err ℕ
  count_usage_records = query (λ db. ok (length db.usage_records))

  -- The retention is in seconds. The second table is left alone if the first statement fails.
  unfoldable pub prune_history : ℤ → Exec Err (Unit {0})
  prune_history retention = do
    now ← unix_now
    let cutoff = sub64 now retention
    statement (λ db. ok (tt, record db { usage_records = prune_usage cutoff db.usage_records }))
    statement (λ db.
        ok (tt, record db { webhook_deliveries = prune_deliveries cutoff db.webhook_deliveries }))

-- `historyRetention` of internal/api/collector.go, 30 days
abbrev pub history_retention : ℤ
history_retention = pos (30 * 24 * 3600)
