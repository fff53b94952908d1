-- ===== src/Store/Subscriptions/Rows.antt =====
-- The rows of the tables subscriptions and api_keys, and what each statement does to them.
use node_panel.Prelude.{
  ℕ, suc, String, none, some, List, [], ◌∷◌, ◌++◌, Bool, not, ◌&&◌, ◌==◌, any, find?, select, count,
  if◌then◌else◌,
}
use node_panel.Prelude.Int.{ℤ, pos, in_int64, ◌+ℤ◌, ltb_ℤ}
use node_panel.Prelude.Text.{remove_code}
use node_panel.Domain.{Subscription}
use node_panel.Schema.{Db, SubscriptionRow, ApiKeyRow}
use node_panel.Runtime.{Env}
use node_panel.Runtime.Exec.{Err, not_found, failure, Result, ok, err}
use node_panel.Store.Table.{null_string, references, checked, foreign_key, unique}

-- `scanSubscription`
unfoldable pub scan_subscription : SubscriptionRow → Result Err Subscription
scan_subscription r =
    if in_int64 r.quota_bytes
    then ok (record {
      id = r.id;
      customer_id = r.customer_id;
      plan_id = null_string r.plan_id;
      node_id = null_string r.node_id;
      node_tenant_id = null_string r.node_tenant_id;
      sub_token = null_string r.sub_token;
      api_key = null_string r.api_key;
      status = r.status;
      period_id = r.period_id;
      start_at = r.start_at;
      end_at = r.end_at;
      quota_bytes = r.quota_bytes;
      used_bytes = r.used_bytes;
      credit_limit_bytes = r.credit_limit_bytes;
      notified_threshold = r.notified_threshold;
      created_at = r.created_at;
    })
    else err (failure "sql: Scan error on quota_bytes")

-- the loop of `querySubscriptions`
unfoldable pub scan_all : List SubscriptionRow → Result Err (List Subscription)
scan_all [] = ok []
scan_all (r ∷ rs) =
    let rest = scan_all rs in
    elim (scan_subscription r) [
      | err e ↦ err e
      | ok s ↦ elim rest [ err e ↦ err e | ok ss ↦ ok (s ∷ ss) ]
    ]

abbrev pub has_id : String → SubscriptionRow → Bool
has_id id r = r.id == id

-- node_tenant_id != '' AND status = 'active'
abbrev pub is_active : SubscriptionRow → Bool
is_active r = not (null_string r.node_tenant_id == "") && r.status == "active"

abbrev max_ℤ : ℤ → ℤ → ℤ
max_ℤ a b = if ltb_ℤ a b then b else a

module _ ⦃env : Env⦄ where
  -- `a + b` in SQL
  abbrev pub sum_columns : ℤ → ℤ → ℤ
  sum_columns a b = if in_int64 a && in_int64 (a +ℤ b) then a +ℤ b else env.real_sum a b

  -- MAX(0, quota_bytes + ?)
  unfoldable pub raise_quota : ℤ → SubscriptionRow → SubscriptionRow
  raise_quota add r = record r { quota_bytes = max_ℤ (pos 0) (sum_columns r.quota_bytes add) }

abbrev pub replace_usage : ℤ → SubscriptionRow → SubscriptionRow
replace_usage used r = record r { used_bytes = used }

abbrev pub replace_status : String → SubscriptionRow → SubscriptionRow
replace_status status r = record r { status = status }

abbrev pub replace_notified : ℕ → SubscriptionRow → SubscriptionRow
replace_notified level r = record r { notified_threshold = level }

abbrev pub set_quota_row : ℤ → ℤ → ℤ → SubscriptionRow → SubscriptionRow
set_quota_row quota credit end_at r = record r {
  quota_bytes = quota;
  credit_limit_bytes = credit;
  end_at = end_at;
}

-- the SET clause of `RenewSubscription`
abbrev pub renewed : ℤ → SubscriptionRow → SubscriptionRow
renewed end_at r = record r {
  used_bytes = pos 0;
  period_id = suc r.period_id;
  notified_threshold = 0;
  status = "active";
  end_at = end_at;
}

unfoldable pub new_row : Subscription → SubscriptionRow
new_row s = record {
  id = s.id;
  customer_id = s.customer_id;
  plan_id = some s.plan_id;
  node_id = some s.node_id;
  node_tenant_id = some s.node_tenant_id;
  sub_token = some s.sub_token;
  api_key = some s.api_key;
  status = s.status;
  period_id = s.period_id;
  start_at = s.start_at;
  end_at = s.end_at;
  quota_bytes = s.quota_bytes;
  used_bytes = s.used_bytes;
  credit_limit_bytes = s.credit_limit_bytes;
  notified_threshold = s.notified_threshold;
  created_at = s.created_at;
}

-- INSERT INTO subscriptions, with the primary key and the three foreign keys
unfoldable pub insert_subscription : Subscription → Db → Result Err (Unit {0} × Db)
unfolding new_row
insert_subscription s db =
    if any (has_id s.id) db.subscriptions
    then err (failure unique)
    else if checked db (
        references (λ c. c.id) db.customers (some s.customer_id)
        && references (λ p. p.id) db.plans (some s.plan_id)
        && references (λ n. n.id) db.nodes (some s.node_id))
    then ok (tt, record db { subscriptions = db.subscriptions ++ new_row s ∷ [] })
    else err (failure foreign_key)

-- INSERT INTO api_keys: `key_hash` is UNIQUE.
unfoldable pub insert_key : ApiKeyRow → Db → Result Err (Unit {0} × Db)
insert_key k db =
    if any (λ r. r.id == k.id) db.api_keys
    then err (failure unique)
    else if any (λ r. r.key_hash == k.key_hash) db.api_keys
    then err (failure unique)
    else if checked db (references (λ c. c.id) db.customers (some k.customer_id))
    then ok (tt, record db { api_keys = db.api_keys ++ k ∷ [] })
    else err (failure foreign_key)

unfoldable pub remove_subscription : String → Db → Result Err (ℕ × Db)
remove_subscription id db = ok (
  count (has_id id) db.subscriptions,
  record db { subscriptions = select (λ r. not (has_id id r)) db.subscriptions },
)

unfoldable pub select_subscription : (SubscriptionRow → Bool) → Db → Result Err Subscription
select_subscription p db = elim (find? p db.subscriptions) [
  | none ↦ err not_found
  | some r ↦ scan_subscription r
]

-- `strings.ReplaceAll(u, "-", "")`
unfoldable pub strip_dashes : String → String
strip_dashes = remove_code b'-'
