-- ===== src/Store/Setup/Rebuild.antt =====
-- What `migrateUsageRecords` of internal/store/store.go does to the usage history, and what an
-- interruption of it leaves.
use node_panel.Prelude.{none, some, List, [], ◌≡◌, ◌≢◌, ◌⊎◌, arith}
use node_panel.Schema.{Db, UsageRecord, absent, plain}
use node_panel.Runtime.{Env, World}
use node_panel.Runtime.Exec.{ok}
use node_panel.Store.Setup.{
  rebuild_usage, create_rebuilt, copy_usage, drop_usage, rename_rebuilt, create_usage_index,
  set_usage, set_rebuilt,
}

module _ ⦃env : Env⦄ where
  pub rebuild_usage-ok :
      (w : World)
      → (rebuild_usage w).0 ≡ ok tt
      → (w.db.shape.rebuilt ≡ none)
        × ((rebuild_usage w).1.db ≡ set_usage plain w.db.usage_records (set_rebuilt none w.db))
  unfolding rebuild_usage create_rebuilt copy_usage drop_usage rename_rebuilt create_usage_index
  rebuild_usage-ok w h = ground arith

  -- A table left over by an interrupted rebuild is in the way of the next one.
  pub rebuild_usage-Stuck :
      (w : World) (rows : List UsageRecord)
      → w.db.shape.rebuilt ≡ some rows
      → (rebuild_usage w).0 ≢ ok tt
  rebuild_usage-Stuck w rows left h = ground (arith, left, rebuild_usage-ok w h)

  abbrev pub Left : Db → Db → Type 0
  Left db db' =
      (db' ≡ db)
      ⊎ (db' ≡ set_rebuilt (some []) db)
      ⊎ (db' ≡ set_rebuilt (some db.usage_records) db)
      ⊎ (db' ≡ set_usage absent [] (set_rebuilt (some db.usage_records) db))
      ⊎ (db' ≡ set_usage plain db.usage_records (set_rebuilt none db))

  -- A rebuild, whatever file it finds and whether it fails or not, leaves everything as it was; or
  -- the old table with the new one beside it, still empty or filled; or the history in the new
  -- table alone; or the history in the renamed table.
  pub rebuild_usage-Left : (w : World) → Left w.db (rebuild_usage w).1.db
  unfolding rebuild_usage create_rebuilt copy_usage drop_usage rename_rebuilt create_usage_index
  rebuild_usage-Left w = ground arith
