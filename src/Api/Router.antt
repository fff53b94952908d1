-- ===== src/Api/Router.antt =====
-- `Router` of internal/api/api.go: the routes with their middleware, and how a request that the
-- multiplexer has matched to one of them is served. The multiplexer (chi), the static files and
-- encoding/json are parameters.
pub mod Guarded
use node_panel.Prelude.{
  ℕ, zero, suc, String, Option, none, some, List, [], ◌∷◌, if◌then◌else◌, Bool, true, false, ◌||◌,
  ◌==◌,
}
use node_panel.Prelude.Int.{ℤ}
use node_panel.Wire.{Decoded}
use node_panel.Config.{Config}
use node_panel.Runtime.{Env}
use node_panel.Runtime.Exec.{Exec, return}
use node_panel.Store.Nodes.{NodeUpdate}
use node_panel.Api.Response.{Response, Handler, respond, write_error, status, redirect}
use node_panel.Api.Decode.{BodyStream, decode_json, read_limited, body_limit, valid}
use node_panel.Api.Access.{bearer_auth, after_prefix}
use node_panel.Api.Catalogue.{
  CreateCustomerRequest, CreatePlanRequest, CreateWebhookRequest, create_customer_handler,
  list_customers_handler, create_plan_handler, list_plans_handler, create_webhook_handler,
  list_webhooks_handler,
}
use node_panel.Api.Nodes.{
  RegisterNodeRequest, register_node, list_nodes_handler, node_health, update_node_handler,
}
use node_panel.Api.Nodes.Core.{
  core_lifecycle, set_xray_version, update_node_binary, get_node_config, update_node_config_handler,
}
use node_panel.Api.Nodes.Detail.{get_node_detail}
use node_panel.Api.Inbounds.{get_node_inbounds}
use node_panel.Api.Lifecycle.{
  delete_plan_handler, delete_customer_handler, enable_customer, disable_customer,
  delete_node_handler,
}
use node_panel.Api.Subscriptions.{
  CreateSubscriptionRequest, create_subscription_handler, list_subscriptions, suspend_subscription,
  resume_subscription, delete_subscription_handler,
}
use node_panel.Api.Quota.{topup_quota, customer_usage, renew_subscription_handler}
use node_panel.Api.Connection.{subscription_connection, sub_info_handler}
use node_panel.Api.Page.{sub_page_handler}

pub data Endpoint : Type 0 where
  at_health at_set_xray_version at_update_node_binary : Endpoint
  at_list_customers at_create_customer at_delete_customer at_enable_customer : Endpoint
  at_disable_customer at_customer_usage at_list_subscriptions at_create_subscription : Endpoint
  at_list_plans at_create_plan at_delete_plan : Endpoint
  at_list_nodes at_register_node at_delete_node at_node_detail at_update_node : Endpoint
  at_node_health at_node_config at_update_node_config at_node_inbounds at_core_lifecycle : Endpoint
  at_suspend at_resume at_topup_quota at_renew at_connection at_delete_subscription : Endpoint
  at_list_webhooks at_create_webhook at_sub_page at_sub_info at_docs at_assets : Endpoint

-- The middleware of a route: none, or the bearer check with one of the two timeouts.
pub data Group : Type 0 where
  unguarded long_operation ordinary : Group

pub record Route : Type 0 where
  pub method : String
  pub pattern : String
  pub group : Group
  pub endpoint : Endpoint

abbrev route : Group → String → String → Endpoint → Route
route group method pattern endpoint = record {
  method = method;
  pattern = pattern;
  group = group;
  endpoint = endpoint;
}

abbrev pub default_request_timeout : ℕ
default_request_timeout = 30

abbrev pub long_node_op_timeout : ℕ
long_node_op_timeout = 200

-- in seconds
abbrev pub timeout : Group → Option ℕ
timeout unguarded = none
timeout long_operation = some long_node_op_timeout
timeout ordinary = some default_request_timeout

-- An empty method stands for every method.
unfoldable pub routes : List Route
routes =
    route unguarded "GET" "/health" at_health
    ∷ route long_operation "POST" "/api/v1/nodes/{id}/xray-version" at_set_xray_version
    ∷ route long_operation "POST" "/api/v1/nodes/{id}/update" at_update_node_binary
    ∷ route ordinary "GET" "/api/v1/customers" at_list_customers
    ∷ route ordinary "POST" "/api/v1/customers" at_create_customer
    ∷ route ordinary "DELETE" "/api/v1/customers/{id}" at_delete_customer
    ∷ route ordinary "POST" "/api/v1/customers/{id}/enable" at_enable_customer
    ∷ route ordinary "POST" "/api/v1/customers/{id}/disable" at_disable_customer
    ∷ route ordinary "GET" "/api/v1/customers/{id}/usage" at_customer_usage
    ∷ route ordinary "GET" "/api/v1/customers/{id}/subscriptions" at_list_subscriptions
    ∷ route ordinary "POST" "/api/v1/customers/{id}/subscriptions" at_create_subscription
    ∷ route ordinary "GET" "/api/v1/plans" at_list_plans
    ∷ route ordinary "POST" "/api/v1/plans" at_create_plan
    ∷ route ordinary "DELETE" "/api/v1/plans/{id}" at_delete_plan
    ∷ route ordinary "GET" "/api/v1/nodes" at_list_nodes
    ∷ route ordinary "POST" "/api/v1/nodes" at_register_node
    ∷ route ordinary "DELETE" "/api/v1/nodes/{id}" at_delete_node
    ∷ route ordinary "GET" "/api/v1/nodes/{id}" at_node_detail
    ∷ route ordinary "PATCH" "/api/v1/nodes/{id}" at_update_node
    ∷ route ordinary "GET" "/api/v1/nodes/{id}/health" at_node_health
    ∷ route ordinary "GET" "/api/v1/nodes/{id}/config" at_node_config
    ∷ route ordinary "PUT" "/api/v1/nodes/{id}/config" at_update_node_config
    ∷ route ordinary "GET" "/api/v1/nodes/{id}/inbounds" at_node_inbounds
    ∷ route ordinary "POST" "/api/v1/nodes/{id}/core/{action}" at_core_lifecycle
    ∷ route ordinary "POST" "/api/v1/subscriptions/{id}/suspend" at_suspend
    ∷ route ordinary "POST" "/api/v1/subscriptions/{id}/resume" at_resume
    ∷ route ordinary "POST" "/api/v1/subscriptions/{id}/topup-quota" at_topup_quota
    ∷ route ordinary "POST" "/api/v1/subscriptions/{id}/renew" at_renew
    ∷ route ordinary "GET" "/api/v1/subscriptions/{id}/connection" at_connection
    ∷ route ordinary "DELETE" "/api/v1/subscriptions/{id}" at_delete_subscription
    ∷ route ordinary "GET" "/api/v1/webhooks" at_list_webhooks
    ∷ route ordinary "POST" "/api/v1/webhooks" at_create_webhook
    ∷ route unguarded "GET" "/sub/{token}" at_sub_page
    ∷ route unguarded "GET" "/sub/{token}/info" at_sub_info
    ∷ route unguarded "GET" "/docs" at_docs
    ∷ route unguarded "" "/*" at_assets
    ∷ []

abbrev pub nth : List Route → ℕ → Option Route
nth [] i = none
nth (r ∷ rs) zero = some r
nth (r ∷ rs) (suc i) = nth rs i

pub record Request : Type 0 where
  pub method : String
  pub path : String
  -- the header, "" where it is absent
  pub authorization : String
  pub body : BodyStream

-- What chi has found for a request: a registered route and its URL parameters.
pub record Match : Type 0 where
  pub index : ℕ
  pub param : String → String

pub record Library : Type 0 where
  pub find : List Route → String → String → Option Match
  -- chi's own answer where no route fits, and the file server's
  pub unmatched : String → String → Response
  pub asset : String → String → Response
  -- `string(body)`, and the decoders of the request types
  pub text : List ℕ → String
  pub decode_version : List ℕ → Decoded String
  pub decode_customer : List ℕ → Decoded CreateCustomerRequest
  pub decode_subscription : List ℕ → Decoded CreateSubscriptionRequest
  pub decode_plan : List ℕ → Decoded CreatePlanRequest
  pub decode_node : List ℕ → Decoded RegisterNodeRequest
  pub decode_node_update : List ℕ → Decoded NodeUpdate
  pub decode_add_bytes : List ℕ → Decoded ℤ
  pub decode_webhook : List ℕ → Decoded CreateWebhookRequest

abbrev is_found : {A : Type 0} → Option A → Bool
is_found none = false
is_found (some a) = true

-- what `r.Route("/api/v1", …)` mounts
unfoldable pub below_api : String → Bool
unfolding after_prefix
below_api path = path == "/api/v1" || is_found (after_prefix "/api/v1/" path)

abbrev handle_health : Handler
handle_health = return (respond 200 (status "ok"))

module _ ⦃env : Env⦄ (lib : Library) where
  abbrev body_text : Option (List ℕ) → Option String
  body_text none = none
  body_text (some bs) = some (lib.text bs)

  abbrev read : {A : Type 0} → (List ℕ → Decoded A) → Request → Option A
  read decode r = valid (decode_json decode r.body)

  unfoldable pub endpoint_handler : Endpoint → (String → String) → Request → Handler
  unfolding decode_json read_limited
  endpoint_handler at_health p r = handle_health
  endpoint_handler at_set_xray_version p r =
      set_xray_version (p "id") (decode_json lib.decode_version r.body)
  endpoint_handler at_update_node_binary p r =
      update_node_binary (p "id") (read lib.decode_version r)
  endpoint_handler at_list_customers p r = list_customers_handler
  endpoint_handler at_create_customer p r = create_customer_handler (read lib.decode_customer r)
  endpoint_handler at_delete_customer p r = delete_customer_handler (p "id")
  endpoint_handler at_enable_customer p r = enable_customer (p "id")
  endpoint_handler at_disable_customer p r = disable_customer (p "id")
  endpoint_handler at_customer_usage p r = customer_usage (p "id")
  endpoint_handler at_list_subscriptions p r = list_subscriptions (p "id")
  endpoint_handler at_create_subscription p r =
      create_subscription_handler (p "id") (read lib.decode_subscription r)
  endpoint_handler at_list_plans p r = list_plans_handler
  endpoint_handler at_create_plan p r = create_plan_handler (read lib.decode_plan r)
  endpoint_handler at_delete_plan p r = delete_plan_handler (p "id")
  endpoint_handler at_list_nodes p r = list_nodes_handler
  endpoint_handler at_register_node p r = register_node (read lib.decode_node r)
  endpoint_handler at_delete_node p r = delete_node_handler (p "id")
  endpoint_handler at_node_detail p r = get_node_detail (p "id")
  endpoint_handler at_update_node p r = update_node_handler (p "id") (read lib.decode_node_update r)
  endpoint_handler at_node_health p r = node_health (p "id")
  endpoint_handler at_node_config p r = get_node_config (p "id")
  endpoint_handler at_update_node_config p r =
      update_node_config_handler (p "id") (body_text (read_limited body_limit r.body))
  endpoint_handler at_node_inbounds p r = get_node_inbounds (p "id")
  endpoint_handler at_core_lifecycle p r = core_lifecycle (p "id") (p "action")
  endpoint_handler at_suspend p r = suspend_subscription (p "id")
  endpoint_handler at_resume p r = resume_subscription (p "id")
  endpoint_handler at_topup_quota p r = topup_quota (p "id") (read lib.decode_add_bytes r)
  endpoint_handler at_renew p r = renew_subscription_handler (p "id")
  endpoint_handler at_connection p r = subscription_connection (p "id")
  endpoint_handler at_delete_subscription p r = delete_subscription_handler (p "id")
  endpoint_handler at_list_webhooks p r = list_webhooks_handler
  endpoint_handler at_create_webhook p r = create_webhook_handler (read lib.decode_webhook r)
  endpoint_handler at_sub_page p r = sub_page_handler (p "token")
  endpoint_handler at_sub_info p r = sub_info_handler (p "token")
  endpoint_handler at_docs p r = return (respond 302 (redirect "/docs.html"))
  endpoint_handler at_assets p r = return (lib.asset r.method r.path)

  -- the middleware `bearerAuth` around a handler
  abbrev pub authorized : Config → Request → Handler → Handler
  authorized cfg r h =
      if bearer_auth cfg.api_token r.authorization
      then h
      else return (write_error 401 "missing or invalid bearer token")

  abbrev pub guarded : Config → Group → Request → Handler → Handler
  guarded cfg unguarded r h = h
  guarded cfg long_operation r h = authorized cfg r h
  guarded cfg ordinary r h = authorized cfg r h

  -- No route fits: below /api/v1 that is the answer of the sub-router, behind its middleware.
  abbrev pub no_route : Config → Request → Handler
  no_route cfg r =
      let answer : Handler = return (lib.unmatched r.method r.path) in
      if below_api r.path then authorized cfg r answer else answer

  abbrev pub serve_route : Config → Request → (String → String) → Option Route → Handler
  serve_route cfg r p none = no_route cfg r
  serve_route cfg r p (some x) = guarded cfg x.group r (endpoint_handler x.endpoint p r)

  abbrev pub serve_match : Config → Request → Option Match → Handler
  serve_match cfg r none = no_route cfg r
  serve_match cfg r (some m) = serve_route cfg r m.param (nth routes m.index)

  unfoldable pub serve_http : Config → Request → Handler
  unfolding endpoint_handler routes below_api
  serve_http cfg r = serve_match cfg r (lib.find routes r.method r.path)
