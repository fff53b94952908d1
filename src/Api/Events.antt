-- ===== src/Api/Events.antt =====
-- `emitUsageEvents` and `emitStatusEvent` of internal/api/collector.go
pub mod Once
use node_panel.Prelude.{String, ℕ, Option, none, some, ◌==◌, leb, if◌then◌else◌}
use node_panel.Prelude.Int.{ℤ, pos, ltb_ℤ, sub64}
use node_panel.Domain.{Subscription}
use node_panel.Wire.{EventData, usage_data, status_data}
use node_panel.Runtime.{Env}
use node_panel.Runtime.Exec.{Exec, ◌>>◌, return, ignore}
use node_panel.Store.Subscriptions.{update_subscription_notified}
use node_panel.Webhook.{
  emit, event_usage_threshold, event_usage_over_quota, event_suspended, event_resumed,
  event_expired,
}
use node_panel.Api.Threshold.{threshold_level}

abbrev pub at_least_zero : ℤ → ℤ
at_least_zero n = if ltb_ℤ n (pos 0) then pos 0 else n

module _ ⦃env : Env⦄ where
  abbrev pub usage_event : Subscription → ℤ → ℕ → EventData
  usage_event sub used level = usage_data (record {
    customer_id = sub.customer_id;
    subscription_id = sub.id;
    period_id = sub.period_id;
    used_bytes = used;
    quota_bytes = sub.quota_bytes;
    overage_bytes = at_least_zero (sub64 used sub.quota_bytes);
    threshold = level;
  })

  unfoldable pub emit_usage_events : {E : Type 0} → Subscription → ℤ → Exec E (Unit {0})
  emit_usage_events sub used =
      let level = threshold_level used sub.quota_bytes in
      if leb level sub.notified_threshold then return tt else (do
        emit (if leb 100 level then event_usage_over_quota else event_usage_threshold)
            (usage_event sub used level)
        ignore (update_subscription_notified sub.id level))

  -- the `switch` of `emitStatusEvent`
  unfoldable pub status_event : String → Option String
  status_event s =
      if s == "suspended"
      then some event_suspended
      else if s == "active"
      then some event_resumed
      else if s == "expired"
      then some event_expired
      else none

  abbrev pub status_content : Subscription → String → EventData
  status_content sub s =
      status_data (record { customer_id = sub.customer_id; subscription_id = sub.id; status = s })

  abbrev pub emit_any : {E : Type 0} → Option String → EventData → Exec E (Unit {0})
  emit_any none content = return tt
  emit_any (some event) content = emit event content

  unfoldable pub emit_status_event : {E : Type 0} → Subscription → String → Exec E (Unit {0})
  unfolding status_event
  emit_status_event sub new_status =
      emit_any (status_event new_status) (status_content sub new_status)
