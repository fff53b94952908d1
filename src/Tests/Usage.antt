-- ===== src/Tests/Usage.antt =====
-- `customerUsage` of internal/api/subscriptions.go for a customer with two subscriptions.
use node_panel.Prelude.{◌≡◌, refl, [], ◌∷◌, arith}
use node_panel.Prelude.Int.{pos}
use node_panel.Schema.{SubscriptionRow}
use node_panel.Runtime.{World, next}
use node_panel.Runtime.Exec.{ok}
use node_panel.Api.Response.{respond, usage}
use node_panel.Api.Quota.{customer_usage}
use node_panel.Api.Quota.Totals.{customer_usage-Totals}
use node_panel.Tests.Fixtures.{demo, answers, panel, tables, subscription_row}

abbrev exhausted : SubscriptionRow
exhausted = record subscription_row { id = "s2"; used_bytes = pos 2500; created_at = pos 30 }

abbrev two_rows : World
two_rows = record panel { db = record tables { subscriptions = subscription_row ∷ exhausted ∷ [] } }

customer_usage-Totals_example : customer_usage "c1" two_rows ≡ (
  ok (
      respond 200 (
        usage (record {
          customer_id = "c1";
          quota_bytes = pos 2000;
          used_bytes = pos 2600;
          overage_bytes = pos 600;
        }))),
  next two_rows,
)
customer_usage-Totals_example =
    customer_usage-Totals "c1" two_rows answers
      (record { quota = refl; used = refl }, (record { quota = refl; used = refl }, tt))
      (omega arith) (omega arith)
