-- ===== src/Store/Plans.antt =====
-- The plan statements of internal/store/store.go, internal/store/nodes.go and
-- internal/store/mutations.go.
use node_panel.Prelude.{
  ℕ, String, none, some, List, [], ◌∷◌, ◌++◌, Bool, not, ◌&&◌, ◌==◌, any, find?, select, count,
  if◌then◌else◌,
}
use node_panel.Prelude.Int.{ℤ}
use node_panel.Domain.{Plan}
use node_panel.Schema.{Db}
use node_panel.Runtime.{Env}
use node_panel.Runtime.Exec.{
  Err, not_found, failure, Result, ok, err, Exec, statement, new_uuid, unix_now, ◌>>=◌, ◌>>◌,
  return,
}
use node_panel.Store.Table.{holds, unique, foreign_key, newest_first, query, check_affected}

abbrev pub has_id : String → Plan → Bool
has_id id r = r.id == id

-- INSERT INTO plans
unfoldable pub insert_plan : Plan → Db → Result Err (Unit {0} × Db)
insert_plan p db =
    if any (has_id p.id) db.plans
    then err (failure unique)
    else ok (tt, record db { plans = db.plans ++ p ∷ [] })

-- DELETE FROM plans: `plan_id TEXT REFERENCES plans(id)` has no ON DELETE action.
unfoldable pub remove_plan : String → Db → Result Err (ℕ × Db)
remove_plan id db =
    if db.shape.foreign_keys
      && (any (has_id id) db.plans && any (λ s. holds id s.plan_id) db.subscriptions)
    then err (failure foreign_key)
    else ok
        (count (has_id id) db.plans, record db { plans = select (λ r. not (has_id id r)) db.plans })

unfoldable pub select_plan : String → Db → Result Err Plan
select_plan id db = elim (find? (has_id id) db.plans) [ none ↦ err not_found | some p ↦ ok p ]

module _ ⦃env : Env⦄ where
  unfoldable pub create_plan : String → ℤ → ℤ → ℤ → Exec Err Plan
  unfolding insert_plan
  create_plan name quota_bytes duration_days max_users = do
    id ← new_uuid
    now ← unix_now
    let p : Plan = record {
      id = id;
      name = name;
      quota_bytes = quota_bytes;
      duration_days = duration_days;
      max_users = max_users;
      created_at = now;
    }
    statement (insert_plan p)
    return p

  unfoldable pub list_plans : Exec Err (List Plan)
  list_plans = query (λ db. ok (newest_first (λ p. p.created_at) db.plans))

  unfoldable pub get_plan : String → Exec Err Plan
  unfolding select_plan
  get_plan id = query (select_plan id)

  unfoldable pub delete_plan : String → Exec Err (Unit {0})
  unfolding remove_plan
  delete_plan id = check_affected (statement (remove_plan id))
