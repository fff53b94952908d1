-- ===== src/Store/Setup.antt =====
-- `Open`, `migrate`, `migrateUsageRecords` and `applySchema` of internal/store/store.go: how the
-- panel brings the database file that it finds into shape.
pub mod Comments
pub mod Rebuild
pub mod Stripped
pub mod Backfill
pub mod Columns
pub mod Again
pub mod Migrated
use node_panel.Prelude.{
  ℕ, zero, suc, String, Option, none, some, List, [], ◌∷◌, ◌++◌, Bool, true, false, not, ◌&&◌, ◌||◌,
  ◌==◌, any, map, select, update, if◌then◌else◌,
}
use node_panel.Prelude.Int.{ℤ, pos}
use node_panel.Prelude.Text.{◌<>◌, is_empty, trim_space, split, contains}
use node_panel.Schema.{
  Db, Shape, UsageShape, absent, constrained, plain, UsageRecord, NodeRow, SubscriptionRow,
}
use node_panel.Runtime.{Env, next}
use node_panel.Runtime.Exec.{
  Err, failure, error_text, Result, ok, err, Exec, statement, ◌>>=◌, ◌>>◌, return, raise, or_else,
  attempt,
}
use node_panel.Store.Table.{null_string, query}
use node_panel.Store.Subscriptions.{new_sub_token, has_id}
use node_panel.Store.Nodes.{default_grpc_port}
use Comments.{strip_sql_comments, first_line}

-- ALTER TABLE … ADD COLUMN

-- the columns of the list `addColumns`
pub data Column : Type 0 where
  grpc_port core_key host_info sub_token api_key : Column

abbrev pub column_name : Column → String
column_name grpc_port = "grpc_port"
column_name core_key = "core_key"
column_name host_info = "host_info"
column_name sub_token = "sub_token"
column_name api_key = "api_key"

abbrev pub columns_of : Column → Shape → Option (List String)
columns_of grpc_port s = s.node_columns
columns_of core_key s = s.node_columns
columns_of host_info s = s.node_columns
columns_of sub_token s = s.subscription_columns
columns_of api_key s = s.subscription_columns

abbrev pub with_column : Column → List String → Shape → Shape
with_column grpc_port cs s = record s { node_columns = some cs }
with_column core_key cs s = record s { node_columns = some cs }
with_column host_info cs s = record s { node_columns = some cs }
with_column sub_token cs s = record s { subscription_columns = some cs }
with_column api_key cs s = record s { subscription_columns = some cs }

abbrev pub on_nodes : (NodeRow → NodeRow) → Db → Db
on_nodes f db = record db { nodes = map f db.nodes }

abbrev pub on_subscriptions : (SubscriptionRow → SubscriptionRow) → Db → Db
on_subscriptions f db = record db { subscriptions = map f db.subscriptions }

-- the rows that are there get the default of the new column
abbrev pub fill : Column → Db → Db
fill grpc_port db = on_nodes (λ r. record r { grpc_port = default_grpc_port }) db
fill core_key db = on_nodes (λ r. record r { core_key = none }) db
fill host_info db = on_nodes (λ r. record r { host_info = none }) db
fill sub_token db = on_subscriptions (λ r. record r { sub_token = none }) db
fill api_key db = on_subscriptions (λ r. record r { api_key = none }) db

abbrev pub set_shape : (Shape → Shape) → Db → Db
set_shape f db = record db { shape = f db.shape }

pub data Pragma : Type 0 where
  journal_mode foreign_keys busy_timeout : Pragma

abbrev pragma_text : Pragma → String
pragma_text journal_mode = "PRAGMA journal_mode=WAL"
pragma_text foreign_keys = "PRAGMA foreign_keys=ON"
pragma_text busy_timeout = "PRAGMA busy_timeout=5000"

-- On the connection, only whether foreign keys are enforced matters here.
abbrev pub set_pragma : Pragma → Db → Db
set_pragma journal_mode db = db
set_pragma foreign_keys db = set_shape (λ s. record s { foreign_keys = true }) db
set_pragma busy_timeout db = db

abbrev pub named : String → List String → Bool
named c cs = any (λ x. x == c) cs

abbrev pub extend : Column → Option (List String) → Db → Result Err (Unit {0} × Db)
extend c none db = err (failure "no such table")
extend c (some cs) db =
    if named (column_name c) cs
    then err (failure ("duplicate column name: " <> column_name c))
    else ok (tt, set_shape (with_column c (cs ++ column_name c ∷ [])) (fill c db))

unfoldable pub add_column : Column → Db → Result Err (Unit {0} × Db)
add_column c db = extend c (columns_of c db.shape) db

-- the statements of `migrateUsageRecords`

abbrev pub set_rebuilt : Option (List UsageRecord) → Db → Db
set_rebuilt rows db = set_shape (λ s. record s { rebuilt = rows }) db

abbrev pub set_usage : UsageShape → List UsageRecord → Db → Db
set_usage u rows db = record db { shape = record db.shape { usage = u }; usage_records = rows }

abbrev pub exists : UsageShape → Bool
exists absent = false
exists constrained = true
exists plain = true

abbrev create_if : Option (List UsageRecord) → Db → Result Err (Unit {0} × Db)
create_if none db = ok (tt, set_rebuilt (some []) db)
create_if (some rows) db = err (failure "table usage_records_new already exists")

unfoldable pub create_rebuilt : Db → Result Err (Unit {0} × Db)
create_rebuilt db = create_if db.shape.rebuilt db

abbrev copy_into : Option (List UsageRecord) → Db → Result Err (Unit {0} × Db)
copy_into none db = err (failure "no such table: usage_records_new")
copy_into (some rows) db =
    if exists db.shape.usage
    then ok (tt, set_rebuilt (some (rows ++ db.usage_records)) db)
    else err (failure "no such table: usage_records")

unfoldable pub copy_usage : Db → Result Err (Unit {0} × Db)
copy_usage db = copy_into db.shape.rebuilt db

unfoldable pub drop_usage : Db → Result Err (Unit {0} × Db)
drop_usage db =
    if exists db.shape.usage
    then ok (tt, set_usage absent [] db)
    else err (failure "no such table: usage_records")

abbrev rename_from : Option (List UsageRecord) → Db → Result Err (Unit {0} × Db)
rename_from none db = err (failure "no such table: usage_records_new")
rename_from (some rows) db =
    if exists db.shape.usage
    then err (failure "there is already another table named usage_records")
    else ok (tt, set_usage plain rows (set_rebuilt none db))

unfoldable pub rename_rebuilt : Db → Result Err (Unit {0} × Db)
rename_rebuilt db = rename_from db.shape.rebuilt db

unfoldable pub create_usage_index : Db → Result Err (Unit {0} × Db)
create_usage_index db =
    if exists db.shape.usage then ok (tt, db) else err (failure "no such table: usage_records")

-- sub_token IS NULL OR sub_token = ''
abbrev pub lacks_token : SubscriptionRow → Bool
lacks_token r = is_empty (null_string r.sub_token)

abbrev pub replace_token : String → SubscriptionRow → SubscriptionRow
replace_token token r = record r { sub_token = some token }

unfoldable pub set_token : String → String → Db → Result Err (Unit {0} × Db)
set_token token id db =
    ok (tt, record db { subscriptions = update (has_id id) (replace_token token) db.subscriptions })

abbrev first_rows : {A : Type 0} → ℕ → List A → List A
first_rows n [] = []
first_rows zero (r ∷ rows) = []
first_rows (suc n) (r ∷ rows) = r ∷ first_rows n rows

abbrev pub rows_before : {A : Type 0} → Option ℕ → List A → List A
rows_before none rows = rows
rows_before (some n) rows = first_rows n rows

abbrev alter_text : Column → String
alter_text grpc_port = "ALTER TABLE nodes ADD COLUMN grpc_port INTEGER NOT NULL DEFAULT 62050"
alter_text core_key = "ALTER TABLE nodes ADD COLUMN core_key TEXT"
alter_text host_info = "ALTER TABLE nodes ADD COLUMN host_info TEXT"
alter_text sub_token = "ALTER TABLE subscriptions ADD COLUMN sub_token TEXT"
alter_text api_key = "ALTER TABLE subscriptions ADD COLUMN api_key TEXT"

-- `%q` of a text in which nothing needs an escape
abbrev quoted : String → String
quoted s = "\"" <> s <> "\""

abbrev pub wrap_error : String → Err → Err
wrap_error prefix e = failure (prefix <> ": " <> error_text e)

module _ ⦃env : Env⦄ where
  -- An error of a column that is there already is no error.
  abbrev pub tolerate : Column → Result Err (Unit {0}) → Exec Err (Unit {0})
  tolerate c (ok _) = return tt
  tolerate c (err e) =
      if contains "duplicate column" (error_text e)
      then return tt
      else raise (wrap_error ("statement " <> quoted (alter_text c)) e)

  unfoldable pub add_columns : List Column → Exec Err (Unit {0})
  unfolding add_column
  add_columns [] = return tt
  add_columns (c ∷ cs) = do
    added ← attempt (statement (add_column c))
    tolerate c added
    add_columns cs

  abbrev rebuild_step : (Db → Result Err (Unit {0} × Db)) → String → Exec Err (Unit {0})
  rebuild_step run text =
      or_else (statement run) (wrap_error ("usage_records migration " <> quoted text))

  -- the five statements, each committed by itself
  unfoldable pub rebuild_usage : Exec Err (Unit {0})
  unfolding create_rebuilt copy_usage drop_usage rename_rebuilt create_usage_index
  rebuild_usage = do
    rebuild_step create_rebuilt "CREATE TABLE usage_records_new ("
    rebuild_step copy_usage
        "INSERT INTO usage_records_new (id, tenant_id, node_id, period_id, ts, used_bytes_cumulative)"
    rebuild_step drop_usage "DROP TABLE usage_records"
    rebuild_step rename_rebuilt "ALTER TABLE usage_records_new RENAME TO usage_records"
    rebuild_step create_usage_index
        "CREATE INDEX IF NOT EXISTS idx_usage_tenant ON usage_records(tenant_id, period_id)"

  -- The DDL in sqlite_master decides: no row, a text with REFERENCES tenants, or another.
  abbrev pub rebuild_if : UsageShape → Exec Err (Unit {0})
  rebuild_if absent = return tt
  rebuild_if constrained = rebuild_usage
  rebuild_if plain = return tt

  unfoldable pub migrate_usage_records : Exec Err (Unit {0})
  unfolding rebuild_usage
  migrate_usage_records = do shape ← query (λ db. ok db.shape.usage); rebuild_if shape

  unfoldable pub backfill_all : List SubscriptionRow → Exec Err (Unit {0})
  unfolding set_token
  backfill_all [] = return tt
  backfill_all (r ∷ rs) = do
    token ← new_sub_token
    statement (set_token token r.id)
    backfill_all rs

  -- The loop over `rows.Next()` with no look at `rows.Err()`: rows that could not be read are not
  -- missed.
  abbrev pub read_rows : {A : Type 0} → List A → Exec Err (List A)
  read_rows rows w = (ok (rows_before (env.rows_broken w.tick) rows), next w)

  unfoldable pub backfill_tokens : Exec Err (Unit {0})
  unfolding backfill_all
  backfill_tokens = do
    rows ← query (λ db. ok (select lacks_token db.subscriptions))
    ids ← read_rows rows
    backfill_all ids

  abbrev pub added_columns : List Column
  added_columns = grpc_port ∷ core_key ∷ host_info ∷ sub_token ∷ api_key ∷ []

  unfoldable pub migrate : Exec Err (Unit {0})
  unfolding add_columns migrate_usage_records backfill_tokens
  migrate = do add_columns added_columns; migrate_usage_records; backfill_tokens

  unfoldable pub pragma : Pragma → Exec Err (Unit {0})
  pragma p =
      or_else (statement (λ db. ok (tt, set_pragma p db)))
        (wrap_error ("pragma " <> quoted (pragma_text p)))

  -- `exec_sql` is the engine's execution of one statement of schema.sql; closing the
  -- database after an error is left out.
  module _ (exec_sql : String → Db → Result Err (Unit {0} × Db)) where
    unfoldable pub run_pieces : List String → Exec Err (Unit {0})
    unfolding first_line
    run_pieces [] = return tt
    run_pieces (piece ∷ pieces) =
        let rest = run_pieces pieces in
        let s = trim_space piece in
        if is_empty s then rest else (do
          or_else (statement (exec_sql s)) (wrap_error ("statement " <> quoted (first_line s)))
          rest)

    unfoldable pub apply_schema : String → Exec Err (Unit {0})
    unfolding run_pieces strip_sql_comments
    apply_schema schema = run_pieces (split b';' (strip_sql_comments schema))

    -- `Open`, after `sql.Open`
    unfoldable pub open_store : String → Exec Err (Unit {0})
    unfolding pragma apply_schema migrate
    open_store schema = do
      pragma journal_mode
      pragma foreign_keys
      pragma busy_timeout
      or_else (apply_schema schema) (wrap_error "apply schema")
      or_else migrate (wrap_error "migrate")
