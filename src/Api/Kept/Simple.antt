-- ===== src/Api/Kept/Simple.antt =====
-- internal/api/handlers.go, webhooks.go, nodes.go and the public pages.
use node_panel.Prelude.{String, Option, none, some, inl, inr}
use node_panel.Wire.{Decoded, value, eof, bad, Health}
use node_panel.Domain.{Node}
use node_panel.Runtime.{Env}
use node_panel.Runtime.Exec.{Err, Result, ok, err, Result-cases}
use node_panel.Runtime.Exec.Keeps.{Keeps}
use node_panel.Store.Nodes.{NodeUpdate}
use node_panel.Store.Intact.{Intact}
use node_panel.Api.Response.{Response, SubInfoResponse}
use node_panel.Api.Catalogue.{
  CreateCustomerRequest, CreatePlanRequest, CreateWebhookRequest, create_customer_handler,
  list_customers_handler, create_plan_handler, list_plans_handler, create_webhook_handler,
  list_webhooks_handler,
}
use node_panel.Api.Nodes.{
  RegisterNodeRequest, register_node, cert_for, push_first_config, probe, list_nodes_handler,
  node_health, update_node_handler,
}
use node_panel.Api.Nodes.Core
use node_panel.Api.Nodes.Core.{
  core_lifecycle, get_node_config, update_node_config_handler, version_or_latest, config_body,
  note_online,
}
use node_panel.Api.Nodes.Detail.{get_node_detail}
use node_panel.Api.Inbounds.{resolve_inbounds, get_node_inbounds}
use node_panel.Api.Connection.{
  subscription_connection, load_sub_info_by_token, with_node, sub_info_handler,
}
use node_panel.Api.Subscriptions.{load_sub_and_node}
use node_panel.Api.Page.{sub_page_handler}
use node_panel.Api.Kept.Rules.{handler_rules}

module _ ⦃env : Env⦄ where
  pub create_customer_handler-Keeps :
      (o : Option CreateCustomerRequest) → Keeps Intact (create_customer_handler o)
  unfolding create_customer_handler
  create_customer_handler-Keeps o = search handler_rules

  pub list_customers_handler-Keeps : Keeps Intact list_customers_handler
  unfolding list_customers_handler
  list_customers_handler-Keeps = search handler_rules

  pub create_plan_handler-Keeps :
      (o : Option CreatePlanRequest) → Keeps Intact (create_plan_handler o)
  unfolding create_plan_handler
  create_plan_handler-Keeps o = search handler_rules depth 7

  pub list_plans_handler-Keeps : Keeps Intact list_plans_handler
  unfolding list_plans_handler
  list_plans_handler-Keeps = search handler_rules

  pub create_webhook_handler-Keeps :
      (o : Option CreateWebhookRequest) → Keeps Intact (create_webhook_handler o)
  unfolding create_webhook_handler
  create_webhook_handler-Keeps o = search handler_rules

  pub list_webhooks_handler-Keeps : Keeps Intact list_webhooks_handler
  unfolding list_webhooks_handler
  list_webhooks_handler-Keeps = search handler_rules

  pub cert_for-Keeps : (r : RegisterNodeRequest) → Keeps Intact (cert_for r)
  unfolding cert_for
  cert_for-Keeps r = search handler_rules depth 7

  pub push_first_config-Keeps :
      (n : Node) (config : String) → Keeps Intact (push_first_config n config)
  unfolding push_first_config
  push_first_config-Keeps n config = search handler_rules depth 9

  pub probe-Keeps : (n : Node) → Keeps Intact (probe n)
  unfolding probe
  probe-Keeps n = search handler_rules depth 9

  pub register_node-Keeps : (o : Option RegisterNodeRequest) → Keeps Intact (register_node o)
  unfolding register_node
  register_node-Keeps o =
      search (handler_rules, cert_for-Keeps, push_first_config-Keeps, probe-Keeps) depth 9

  pub list_nodes_handler-Keeps : Keeps Intact list_nodes_handler
  unfolding list_nodes_handler
  list_nodes_handler-Keeps = search handler_rules

  pub node_health-Keeps : (id : String) → Keeps Intact (node_health id)
  unfolding node_health
  node_health-Keeps id = search handler_rules depth 9

  pub update_node_handler-Keeps :
      (id : String) (o : Option NodeUpdate) → Keeps Intact (update_node_handler id o)
  unfolding update_node_handler
  update_node_handler-Keeps id o = search handler_rules depth 9

  pub core_lifecycle-Keeps : (id action : String) → Keeps Intact (core_lifecycle id action)
  unfolding core_lifecycle
  core_lifecycle-Keeps id action = search handler_rules depth 9

  version_or_latest-Keeps : (d : Decoded String) → Keeps Intact (version_or_latest d)
  version_or_latest-Keeps (value v) = search handler_rules
  version_or_latest-Keeps eof = search handler_rules
  version_or_latest-Keeps (bad e) = search handler_rules

  pub set_xray_version-Keeps :
      (id : String) (d : Decoded String) → Keeps Intact (Core.set_xray_version id d)
  unfolding Core.set_xray_version
  set_xray_version-Keeps id d = search (handler_rules, version_or_latest-Keeps) depth 7

  pub update_node_binary-Keeps :
      (id : String) (o : Option String) → Keeps Intact (Core.update_node_binary id o)
  unfolding Core.update_node_binary
  update_node_binary-Keeps id o = search handler_rules depth 7

  pub get_node_config-Keeps : (id : String) → Keeps Intact (get_node_config id)
  unfolding get_node_config
  get_node_config-Keeps id = search handler_rules depth 7

  config_body-Keeps : (o : Option String) → Keeps Intact (config_body o)
  config_body-Keeps none = search handler_rules
  config_body-Keeps (some s) = search handler_rules

  note_online-Keeps : (id : String) (r : Result Err Health) → Keeps Intact (note_online id r)
  note_online-Keeps id (err e) = search handler_rules
  note_online-Keeps id (ok h) = search handler_rules

  pub update_node_config_handler-Keeps :
      (id : String) (o : Option String) → Keeps Intact (update_node_config_handler id o)
  unfolding update_node_config_handler
  update_node_config_handler-Keeps id o =
      search (handler_rules, config_body-Keeps, note_online-Keeps) depth 9

  pub get_node_detail-Keeps : (id : String) → Keeps Intact (get_node_detail id)
  unfolding get_node_detail
  get_node_detail-Keeps id = search handler_rules depth 7

  resolve_inbounds-Keeps : (n : Node) → Keeps Intact (resolve_inbounds {E = Response} n)
  unfolding resolve_inbounds
  resolve_inbounds-Keeps n = search handler_rules

  pub get_node_inbounds-Keeps : (id : String) → Keeps Intact (get_node_inbounds id)
  unfolding get_node_inbounds
  get_node_inbounds-Keeps id = search (handler_rules, resolve_inbounds-Keeps) depth 7

  pub load_sub_and_node-Keeps : (id : String) → Keeps Intact (load_sub_and_node id)
  unfolding load_sub_and_node
  load_sub_and_node-Keeps id = search handler_rules

  pub subscription_connection-Keeps : (id : String) → Keeps Intact (subscription_connection id)
  unfolding subscription_connection
  subscription_connection-Keeps id =
      search (handler_rules, resolve_inbounds-Keeps, load_sub_and_node-Keeps) depth 7

  with_node-Keeps : (i : SubInfoResponse) (r : Result Err Node) → Keeps Intact (with_node i r)
  with_node-Keeps i (err e) = search handler_rules
  with_node-Keeps i (ok n) = search (handler_rules, resolve_inbounds-Keeps)

  pub load_sub_info_by_token-Keeps : (token : String) → Keeps Intact (load_sub_info_by_token token)
  unfolding load_sub_info_by_token
  load_sub_info_by_token-Keeps token = search (handler_rules, with_node-Keeps) depth 9

  pub sub_info_handler-Keeps : (token : String) → Keeps Intact (sub_info_handler token)
  unfolding sub_info_handler
  sub_info_handler-Keeps token = search (handler_rules, load_sub_info_by_token-Keeps) depth 7

  pub sub_page_handler-Keeps : (token : String) → Keeps Intact (sub_page_handler token)
  unfolding sub_page_handler
  sub_page_handler-Keeps token = record {
    at = λ w i. elim (Result-cases (load_sub_info_by_token token w).0) [
      | inr (e, h) ↦ rw h ((load_sub_info_by_token-Keeps token).at w i)
      | inl (a, h) ↦ rw h ((load_sub_info_by_token-Keeps token).at w i)
    ];
  }
