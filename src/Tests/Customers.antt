-- ===== src/Tests/Customers.antt =====
-- The customer calls of internal/store and `toggleCustomer` of internal/api on the small panel.
use node_panel.Prelude.{false, [], ◌∷◌, ◌≡◌, refl}
use node_panel.Prelude.Int.{pos}
use node_panel.Domain.{Subscription}
use node_panel.Runtime.Exec.{ok}
use node_panel.Api.Response.{respond, customer}
use node_panel.Api.Lifecycle.{toggle_customer}
use node_panel.Api.Lifecycle.Toggled.{marked, with_rows, switched_row, toggle_customer-Toggled}
use node_panel.Store.Subscriptions.{list_subscriptions_by_customer}
use node_panel.Store.Customers.{
  create_customer, delete_customer, set_customer_status, get_customer, scan_customer,
}
use node_panel.Store.CustomerMap.{Created, Edited, Got, drop, mark}
use node_panel.Store.CustomerMap.Calls.{customers-CustomerMap}
use node_panel.Tests.Fixtures.{demo, answers, panel, customer_row}

customers-CustomerMap_example :
    Created panel (create_customer "Bob" "ref" panel)
    × Edited panel "c1" (drop "c1") (delete_customer "c1" panel)
    × Edited panel "c1" (mark "c1" "disabled") (set_customer_status "c1" "disabled" panel)
    × Got panel "c1" (get_customer "c1" panel)
customers-CustomerMap_example = customers-CustomerMap "Bob" "ref" "c1" "disabled" panel

deleted : (delete_customer "c1" panel).0 ≡ ok tt
unfolding delete_customer
deleted = refl

abbrev sold : Subscription
sold = record {
  id = "s1";
  customer_id = "c1";
  plan_id = "p1";
  node_id = "n1";
  node_tenant_id = "t1";
  sub_token = "token";
  api_key = "key";
  status = "active";
  period_id = 1;
  start_at = pos 20;
  end_at = pos 2000;
  quota_bytes = pos 1000;
  used_bytes = pos 100;
  credit_limit_bytes = pos 0;
  notified_threshold = 0;
  created_at = pos 20;
}

subscriptions_of_c1 : (list_subscriptions_by_customer "c1" panel).0 ≡ ok (sold ∷ [])
unfolding list_subscriptions_by_customer node_panel.Store.Subscriptions.scan_all
    node_panel.Store.Subscriptions.scan_subscription
subscriptions_of_c1 = refl

toggle_customer-Toggled_example :
    ((toggle_customer false "c1" panel).0
      ≡ ok (respond 200 (customer (scan_customer (record customer_row { status = "disabled" })))))
    × ((toggle_customer false "c1" panel).1.db
        ≡ marked "c1" "disabled"
            (with_rows (switched_row panel.db (sold ∷ [])) "suspended" panel.db))
toggle_customer-Toggled_example =
    toggle_customer-Toggled false "c1" (sold ∷ []) customer_row panel answers subscriptions_of_c1
      refl
