-- ===== src/Api/Quota.antt =====
-- internal/api/subscriptions.go: `topupQuota`, `customerUsage` and `renewSubscription`.
pub mod Topup
pub mod Settled
pub mod Renewal
pub mod Totals
use node_panel.Prelude.{String, Option, none, some, List, [], ◌∷◌, if◌then◌else◌}
use node_panel.Prelude.Int.{ℤ, pos, add64, sub64, mul64, leb_ℤ}
use node_panel.Prelude.Text.{◌<>◌}
use node_panel.Domain.{Plan, Node, Subscription}
use node_panel.Runtime.{Env}
use node_panel.Runtime.Exec.{
  Err, error_text, Result, ok, err, Exec, ◌>>=◌, ◌>>◌, return, raise, or_else, attempt, ignore,
  on_result, unix_now,
}
use node_panel.Store.Plans.{get_plan}
use node_panel.Store.Subscriptions.{
  get_subscription, list_subscriptions_by_customer, update_subscription_status,
  update_subscription_notified, add_subscription_quota, renew_subscription,
}
use node_panel.NodeClient.{client_for_node, push_quota, resume, reset_period}
use node_panel.Api.Response.{
  Response, Handler, respond, write_error, not_found_or_500, subscription, usage, null,
}
use node_panel.Api.Threshold.{threshold_level}
use node_panel.Api.Events.{at_least_zero}
use node_panel.Api.Subscriptions.{load_sub_and_node}

abbrev node_error : Err → Response
node_error e = write_error 502 ("node error: " <> error_text e)

abbrev pub positive_bytes : Option ℤ → Exec Response ℤ
positive_bytes none = raise (write_error 400 "add_bytes must be positive")
positive_bytes (some n) =
    if leb_ℤ n (pos 0) then raise (write_error 400 "add_bytes must be positive") else return n

abbrev negate : ℤ → ℤ
negate n = sub64 (pos 0) n

abbrev pub add_usage : List Subscription → ℤ × ℤ → ℤ × ℤ
add_usage [] acc = acc
add_usage (s ∷ ss) (quota, used) = add_usage ss (add64 quota s.quota_bytes, add64 used s.used_bytes)

-- the plan's days, or 30 where it is gone or has none
abbrev pub renewal_days : Result Err Plan → ℤ
renewal_days (err e) = pos 30
renewal_days (ok p) = if leb_ℤ p.duration_days (pos 0) then pos 30 else p.duration_days

module _ ⦃env : Env⦄ where
  -- after the local increment: the node gets the new quota, or the increment is undone
  abbrev pub push_new_quota : Subscription → Node → ℤ → ℤ → Exec Response (Unit {0})
  push_new_quota sub node add_bytes new_quota = do
    pushed ← attempt (
        push_quota (client_for_node node) sub.node_tenant_id (record {
          quota_bytes = new_quota;
          credit_limit_bytes = sub.credit_limit_bytes;
          expire_at = sub.end_at;
        }))
    on_result pushed (λ _. return tt)
        (λ e. (do ignore (add_subscription_quota sub.id (negate add_bytes)); raise (node_error e)))

  unfoldable pub topup_quota : String → Option ℤ → Handler
  unfolding load_sub_and_node
  topup_quota id body = do
    (sub, node) ← load_sub_and_node id
    add_bytes ← positive_bytes body
    new_quota ←
        or_else (add_subscription_quota sub.id add_bytes)
          (λ _. write_error 500 "failed to update quota")
    push_new_quota sub node add_bytes new_quota
    ignore (resume (client_for_node node) sub.node_tenant_id)
    ignore (update_subscription_status sub.id "active")
    ignore (update_subscription_notified sub.id (threshold_level sub.used_bytes new_quota))
    return (respond 200 (subscription (record sub { quota_bytes = new_quota; status = "active" })))

  unfoldable pub customer_usage : String → Handler
  customer_usage customer_id = do
    subs ←
        or_else (list_subscriptions_by_customer customer_id)
          (λ _. write_error 500 "failed to load usage")
    let (quota, used) = add_usage subs (pos 0, pos 0)
    return (
        respond 200 (
          usage (record {
            customer_id = customer_id;
            quota_bytes = quota;
            used_bytes = used;
            overage_bytes = at_least_zero (sub64 used quota);
          })))

  abbrev pub reloaded : Result Err Subscription → Response
  reloaded (ok s) = respond 200 (subscription s)
  reloaded (err e) = respond 200 null

  unfoldable pub renew_subscription_handler : String → Handler
  unfolding load_sub_and_node
  renew_subscription_handler id = do
    (sub, node) ← load_sub_and_node id
    plan ← attempt (get_plan sub.plan_id)
    now ← unix_now
    let end_at = add64 now (mul64 (renewal_days plan) (pos 86400))
    or_else (reset_period (client_for_node node) sub.node_tenant_id) node_error
    or_else
        (push_quota (client_for_node node) sub.node_tenant_id (record {
          quota_bytes = sub.quota_bytes;
          credit_limit_bytes = sub.credit_limit_bytes;
          expire_at = end_at;
        }))
        node_error
    or_else (renew_subscription sub.id end_at) not_found_or_500
    updated ← attempt (get_subscription sub.id)
    return (reloaded updated)
