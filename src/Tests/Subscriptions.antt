-- ===== src/Tests/Subscriptions.antt =====
-- The subscription handlers of internal/api/subscriptions.go on the small panel.
use node_panel.Prelude.{◌≡◌, refl, ◌⊎◌, some}
use node_panel.Prelude.Int.{pos}
use node_panel.NodeClient.{client_for_node}
use node_panel.Api.Response.{serve}
use node_panel.Domain.{Subscription}
use node_panel.Runtime.Exec.{ok}
use node_panel.Store.Subscriptions.{
  create_subscription, get_subscription, get_subscription_by_token,
}
use node_panel.Store.Creation.{SameTerms}
use node_panel.Store.Roundtrip.{create_subscription-get}
use node_panel.Api.Subscriptions.{
  CreateSubscriptionRequest, create_subscription_handler, delete_subscription_handler,
}
use node_panel.Api.Subscriptions.Removal.{Gone, Kept, delete_subscription_handler-Gone}
use node_panel.Tests.Fixtures.{demo, answers, panel}

abbrev order : CreateSubscriptionRequest
order = record { plan_id = "p1"; node_id = "n1"; credit_limit_bytes = pos 0 }

delete_subscription_handler-Gone_example :
    Gone "s1" panel (serve (delete_subscription_handler "s1") panel)
    ⊎ Kept panel (serve (delete_subscription_handler "s1") panel)
delete_subscription_handler-Gone_example = delete_subscription_handler-Gone "s1" panel

deleted : (serve (delete_subscription_handler "s1") panel).0.code ≡ 204
unfolding delete_subscription_handler node_panel.Store.Subscriptions.get_subscription
    node_panel.Store.Subscriptions.scan_subscription node_panel.Api.Subscriptions.deprovision
    node_panel.Store.Nodes.get_node node_panel.NodeClient.delete
    node_panel.Store.Subscriptions.delete_subscription
deleted = refl

created : (serve (create_subscription_handler "c1" (some order)) panel).0.code ≡ 201
unfolding create_subscription_handler node_panel.Store.Customers.get_customer
    node_panel.Store.Plans.get_plan node_panel.Store.Nodes.get_node
    node_panel.Api.Subscriptions.provision node_panel.NodeClient.provision_tenant
    node_panel.Api.Subscriptions.persist node_panel.Store.Subscriptions.create_subscription
    node_panel.Store.Subscriptions.create_api_key
created = refl

-- the fields that the store fills in are empty
abbrev wanted : Subscription
wanted = record {
  id = "";
  customer_id = "c1";
  plan_id = "p1";
  node_id = "n1";
  node_tenant_id = "t2";
  sub_token = "";
  api_key = "raw";
  status = "";
  period_id = 0;
  start_at = pos 20;
  end_at = pos 2000;
  quota_bytes = pos 1000;
  used_bytes = pos 0;
  credit_limit_bytes = pos 0;
  notified_threshold = 0;
  created_at = pos 0;
}

abbrev filled_in : Subscription
filled_in = record wanted {
  id = "u";
  sub_token = "xxu";
  status = "active";
  period_id = 1;
  created_at = pos 1000;
}

stored : (create_subscription wanted panel).0 ≡ ok filled_in
unfolding create_subscription node_panel.Store.Subscriptions.strip_dashes
    node_panel.Prelude.Text.remove_code
stored = refl

create_subscription-get_example :
    SameTerms wanted filled_in
    × ((get_subscription "u" (create_subscription wanted panel).1).0 ≡ ok filled_in)
    × ((get_subscription_by_token "xxu" (create_subscription wanted panel).1).0 ≡ ok filled_in)
create_subscription-get_example =
    create_subscription-get wanted filled_in panel answers refl stored refl
