-- ===== src/Store/Subscriptions.antt =====
-- internal/store/subscriptions.go, with `DeleteSubscription` and `RenewSubscription` of
-- internal/store/mutations.go and `newSubToken` of internal/store/store.go.
--
-- Of the integer columns only `quota_bytes` is ever computed by an SQL sum, so it alone can hold
-- what is no 64-bit integer; reading such a row is an error of `Scan`.
mod Rows
unfoldable pub use Rows.{
  scan_subscription, scan_all, has_id, is_active, sum_columns, raise_quota, replace_usage,
  replace_status, replace_notified, renewed, new_row, insert_subscription, insert_key,
  remove_subscription, select_subscription, strip_dashes, set_quota_row,
}
use node_panel.Prelude.{
  ℕ, String, none, some, List, Bool, ◌==◌, find?, select, count, update, if◌then◌else◌, eqb,
}
use node_panel.Prelude.Int.{ℤ, pos, eqb_ℤ}
use node_panel.Prelude.Text.{is_empty}
use node_panel.Domain.{Subscription}
use node_panel.Schema.{Db, SubscriptionRow, ApiKeyRow}
use node_panel.Runtime.{Env}
use node_panel.Runtime.Exec.{
  Err, not_found, failure, Result, ok, err, Exec, statement, new_uuid, unix_now, ◌>>=◌, ◌>>◌,
  return, raise,
}
use node_panel.Store.Table.{holds, newest_first, query, check_affected}

module _ ⦃env : Env⦄ where
  -- An unguessable token: a uuid without its dashes.
  unfoldable pub new_sub_token : Exec Err String
  new_sub_token = do u ← new_uuid; return (strip_dashes u)

  -- The stored subscription comes back: the code fills the defaults in through its pointer.
  unfoldable pub create_subscription : Subscription → Exec Err Subscription
  unfolding insert_subscription new_sub_token
  create_subscription sub = do
    id ← if is_empty sub.id then new_uuid else return sub.id
    created_at ← if eqb_ℤ sub.created_at (pos 0) then unix_now else return sub.created_at
    sub_token ← if is_empty sub.sub_token then new_sub_token else return sub.sub_token
    let stored : Subscription = record sub {
      id = id;
      created_at = created_at;
      period_id = if eqb sub.period_id 0 then 1 else sub.period_id;
      status = if is_empty sub.status then "active" else sub.status;
      sub_token = sub_token;
    }
    statement (insert_subscription stored)
    return stored

  unfoldable pub get_subscription : String → Exec Err Subscription
  unfolding select_subscription
  get_subscription id = query (select_subscription (has_id id))

  unfoldable pub get_subscription_by_token : String → Exec Err Subscription
  unfolding select_subscription
  get_subscription_by_token token = query (select_subscription (λ r. holds token r.sub_token))

  unfoldable pub list_subscriptions_by_customer : String → Exec Err (List Subscription)
  list_subscriptions_by_customer customer_id = query (λ db. scan_all (
      newest_first (λ r. r.created_at)
        (select (λ r. r.customer_id == customer_id) db.subscriptions)))

  unfoldable pub list_active_subscriptions : Exec Err (List Subscription)
  list_active_subscriptions = query (λ db. scan_all (select is_active db.subscriptions))

  abbrev change : String → (SubscriptionRow → SubscriptionRow) → Exec Err (Unit {0})
  change id f =
      statement (λ db. ok (tt, record db { subscriptions = update (has_id id) f db.subscriptions }))

  unfoldable pub update_subscription_usage : String → ℤ → Exec Err (Unit {0})
  update_subscription_usage id used_bytes = change id (replace_usage used_bytes)

  unfoldable pub update_subscription_status : String → String → Exec Err (Unit {0})
  update_subscription_status id status = change id (replace_status status)

  unfoldable pub set_subscription_quota : String → ℤ → ℤ → ℤ → Exec Err (Unit {0})
  set_subscription_quota id quota_bytes credit_limit_bytes end_at =
      change id (set_quota_row quota_bytes credit_limit_bytes end_at)

  unfoldable pub update_subscription_notified : String → ℕ → Exec Err (Unit {0})
  update_subscription_notified id level = change id (replace_notified level)

  abbrev quota_of : String → Db → Result Err ℤ
  quota_of id db = elim (find? (has_id id) db.subscriptions) [
    | none ↦ err (failure "sql: no rows in result set")
    | some r ↦ elim (scan_subscription r) [ err e ↦ err e | ok s ↦ ok s.quota_bytes ]
  ]

  -- Two statements: between them another caller may change the row.
  unfoldable pub add_subscription_quota : String → ℤ → Exec Err ℤ
  add_subscription_quota id add_bytes = do
    if eqb_ℤ add_bytes (pos 0)
        then raise (failure "addBytes must be non-zero")
        else change id (raise_quota add_bytes)
    query (quota_of id)

  unfoldable pub count_subscriptions_by_node : String → Exec Err ℕ
  count_subscriptions_by_node node_id =
      query (λ db. ok (count (λ r. holds node_id r.node_id) db.subscriptions))

  unfoldable pub create_api_key : String → String → String → Exec Err (Unit {0})
  unfolding insert_key
  create_api_key customer_id key_hash prefix = do
    id ← new_uuid
    now ← unix_now
    let k : ApiKeyRow = record {
      id = id;
      customer_id = customer_id;
      key_hash = key_hash;
      prefix = prefix;
      status = "active";
      created_at = now;
    }
    statement (insert_key k)

  unfoldable pub delete_subscription : String → Exec Err (Unit {0})
  unfolding remove_subscription
  delete_subscription id = check_affected (statement (remove_subscription id))

  unfoldable pub renew_subscription : String → ℤ → Exec Err (Unit {0})
  renew_subscription id end_at = check_affected (
      statement (λ db. ok (
        count (has_id id) db.subscriptions,
        record db { subscriptions = update (has_id id) (renewed end_at) db.subscriptions },
      )))
