-- ===== src/Api/Kept/Requests.antt =====
-- Every request keeps the tables intact.
use node_panel.Prelude.{String, Option, none, some}
use node_panel.Config.{Config}
use node_panel.Runtime.{Env}
use node_panel.Runtime.Exec.Keeps.{Keeps, Keeps-return, Keeps-if}
use node_panel.Store.Intact.{Intact}
use node_panel.Api.Access.{bearer_auth}
use node_panel.Api.Router
use node_panel.Api.Router.{
  Endpoint, Group, unguarded, no_route, below_api, long_operation, ordinary, Route, Request, Match,
  Library, routes, nth, endpoint_handler, guarded, no_route, below_api, authorized, serve_route,
  serve_match, serve_http,
}
use node_panel.Api.Kept.Simple.{
  create_customer_handler-Keeps, list_customers_handler-Keeps, create_plan_handler-Keeps,
  list_plans_handler-Keeps, create_webhook_handler-Keeps, list_webhooks_handler-Keeps,
  register_node-Keeps, list_nodes_handler-Keeps, node_health-Keeps, update_node_handler-Keeps,
  core_lifecycle-Keeps, set_xray_version-Keeps, update_node_binary-Keeps, get_node_config-Keeps,
  update_node_config_handler-Keeps, get_node_detail-Keeps, get_node_inbounds-Keeps,
  subscription_connection-Keeps, sub_info_handler-Keeps, sub_page_handler-Keeps,
}
use node_panel.Api.Kept.Sales.{
  create_subscription_handler-Keeps, list_subscriptions-Keeps, suspend_subscription-Keeps,
  resume_subscription-Keeps, delete_subscription_handler-Keeps, topup_quota-Keeps,
  customer_usage-Keeps, renew_subscription_handler-Keeps, delete_plan_handler-Keeps,
  delete_customer_handler-Keeps, enable_customer-Keeps, disable_customer-Keeps,
  delete_node_handler-Keeps,
}

module _ ⦃env : Env⦄ (lib : Library) where
  endpoint_handler-Keeps :
      (e : Endpoint) (p : String → String) (r : Request) → Keeps Intact (endpoint_handler lib e p r)
  unfolding endpoint_handler
  endpoint_handler-Keeps Router.at_health p r = Keeps-return _
  endpoint_handler-Keeps Router.at_set_xray_version p r = set_xray_version-Keeps _ _
  endpoint_handler-Keeps Router.at_update_node_binary p r = update_node_binary-Keeps _ _
  endpoint_handler-Keeps Router.at_list_customers p r = list_customers_handler-Keeps
  endpoint_handler-Keeps Router.at_create_customer p r = create_customer_handler-Keeps _
  endpoint_handler-Keeps Router.at_delete_customer p r = delete_customer_handler-Keeps _
  endpoint_handler-Keeps Router.at_enable_customer p r = enable_customer-Keeps _
  endpoint_handler-Keeps Router.at_disable_customer p r = disable_customer-Keeps _
  endpoint_handler-Keeps Router.at_customer_usage p r = customer_usage-Keeps _
  endpoint_handler-Keeps Router.at_list_subscriptions p r = list_subscriptions-Keeps _
  endpoint_handler-Keeps Router.at_create_subscription p r = create_subscription_handler-Keeps _ _
  endpoint_handler-Keeps Router.at_list_plans p r = list_plans_handler-Keeps
  endpoint_handler-Keeps Router.at_create_plan p r = create_plan_handler-Keeps _
  endpoint_handler-Keeps Router.at_delete_plan p r = delete_plan_handler-Keeps _
  endpoint_handler-Keeps Router.at_list_nodes p r = list_nodes_handler-Keeps
  endpoint_handler-Keeps Router.at_register_node p r = register_node-Keeps _
  endpoint_handler-Keeps Router.at_delete_node p r = delete_node_handler-Keeps _
  endpoint_handler-Keeps Router.at_node_detail p r = get_node_detail-Keeps _
  endpoint_handler-Keeps Router.at_update_node p r = update_node_handler-Keeps _ _
  endpoint_handler-Keeps Router.at_node_health p r = node_health-Keeps _
  endpoint_handler-Keeps Router.at_node_config p r = get_node_config-Keeps _
  endpoint_handler-Keeps Router.at_update_node_config p r = update_node_config_handler-Keeps _ _
  endpoint_handler-Keeps Router.at_node_inbounds p r = get_node_inbounds-Keeps _
  endpoint_handler-Keeps Router.at_core_lifecycle p r = core_lifecycle-Keeps _ _
  endpoint_handler-Keeps Router.at_suspend p r = suspend_subscription-Keeps _
  endpoint_handler-Keeps Router.at_resume p r = resume_subscription-Keeps _
  endpoint_handler-Keeps Router.at_topup_quota p r = topup_quota-Keeps _ _
  endpoint_handler-Keeps Router.at_renew p r = renew_subscription_handler-Keeps _
  endpoint_handler-Keeps Router.at_connection p r = subscription_connection-Keeps _
  endpoint_handler-Keeps Router.at_delete_subscription p r = delete_subscription_handler-Keeps _
  endpoint_handler-Keeps Router.at_list_webhooks p r = list_webhooks_handler-Keeps
  endpoint_handler-Keeps Router.at_create_webhook p r = create_webhook_handler-Keeps _
  endpoint_handler-Keeps Router.at_sub_page p r = sub_page_handler-Keeps _
  endpoint_handler-Keeps Router.at_sub_info p r = sub_info_handler-Keeps _
  endpoint_handler-Keeps Router.at_docs p r = Keeps-return _
  endpoint_handler-Keeps Router.at_assets p r = Keeps-return _

  guarded-Keeps :
      (cfg : Config) (g : Group) (r : Request) (e : Endpoint) (p : String → String)
      → Keeps Intact (guarded lib cfg g r (endpoint_handler lib e p r))
  guarded-Keeps cfg unguarded r e p = endpoint_handler-Keeps e p r
  guarded-Keeps cfg long_operation r e p =
      Keeps-if (bearer_auth cfg.api_token r.authorization) _ _ (endpoint_handler-Keeps e p r)
        (Keeps-return _)
  guarded-Keeps cfg ordinary r e p =
      Keeps-if (bearer_auth cfg.api_token r.authorization) _ _ (endpoint_handler-Keeps e p r)
        (Keeps-return _)

  no_route-Keeps : (cfg : Config) (r : Request) → Keeps Intact (no_route lib cfg r)
  no_route-Keeps cfg r =
      Keeps-if (below_api r.path) _ _
        (Keeps-if (bearer_auth cfg.api_token r.authorization) _ _ (Keeps-return _) (Keeps-return _))
        (Keeps-return _)

  serve_route-Keeps :
      (cfg : Config) (r : Request) (p : String → String) (x : Option Route)
      → Keeps Intact (serve_route lib cfg r p x)
  serve_route-Keeps cfg r p none = no_route-Keeps cfg r
  serve_route-Keeps cfg r p (some x) = guarded-Keeps cfg x.group r x.endpoint p

  serve_match-Keeps :
      (cfg : Config) (r : Request) (m : Option Match) → Keeps Intact (serve_match lib cfg r m)
  serve_match-Keeps cfg r none = no_route-Keeps cfg r
  serve_match-Keeps cfg r (some m) = serve_route-Keeps cfg r m.param (nth routes m.index)

  pub serve_http-Keeps : (cfg : Config) (r : Request) → Keeps Intact (serve_http lib cfg r)
  unfolding serve_http
  serve_http-Keeps cfg r = serve_match-Keeps cfg r (lib.find routes r.method r.path)
