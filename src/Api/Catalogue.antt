-- ===== src/Api/Catalogue.antt =====
-- internal/api/handlers.go and internal/api/webhooks.go.
pub mod Sold
use node_panel.Prelude.{String, Option, ◌||◌}
use node_panel.Prelude.Int.{ℤ, pos, leb_ℤ}
use node_panel.Prelude.Text.{is_empty}
use node_panel.Runtime.{Env}
use node_panel.Runtime.Exec.{◌>>=◌, ◌>>◌, return, or_else}
use node_panel.Store.Customers.{create_customer, list_customers}
use node_panel.Store.Plans.{create_plan, list_plans}
use node_panel.Store.Webhooks.{create_webhook, list_webhooks}
use node_panel.Api.Response.{
  Handler, respond, write_error, decoded, customer, customers, plan, plans, webhook, webhooks,
}
use node_panel.Api.Nodes.{is_blank, guard}

pub record CreateCustomerRequest : Type 0 where
  pub name : String
  pub external_ref : String

pub record CreatePlanRequest : Type 0 where
  pub name : String
  pub quota_bytes : ℤ
  pub duration_days : ℤ
  pub max_users : ℤ

pub record CreateWebhookRequest : Type 0 where
  pub url : String
  pub secret : String
  pub events : String

module _ ⦃env : Env⦄ where
  unfoldable pub create_customer_handler : Option CreateCustomerRequest → Handler
  create_customer_handler body = do
    req ← decoded body (write_error 400 "invalid json body")
    guard (is_blank req.name) (write_error 400 "name is required")
    c ←
        or_else (create_customer req.name req.external_ref)
          (λ _. write_error 500 "failed to create customer")
    return (respond 201 (customer c))

  unfoldable pub list_customers_handler : Handler
  list_customers_handler = do
    cs ← or_else list_customers (λ _. write_error 500 "failed to list customers")
    return (respond 200 (customers cs))

  unfoldable pub create_plan_handler : Option CreatePlanRequest → Handler
  create_plan_handler body = do
    req ← decoded body (write_error 400 "invalid json body")
    guard (is_blank req.name) (write_error 400 "name is required")
    guard (leb_ℤ req.quota_bytes (pos 0) || leb_ℤ req.duration_days (pos 0))
        (write_error 400 "quota_bytes and duration_days must be positive")
    p ←
        or_else (create_plan req.name req.quota_bytes req.duration_days req.max_users)
          (λ _. write_error 500 "failed to create plan")
    return (respond 201 (plan p))

  unfoldable pub list_plans_handler : Handler
  list_plans_handler = do
    ps ← or_else list_plans (λ _. write_error 500 "failed to list plans")
    return (respond 200 (plans ps))

  unfoldable pub create_webhook_handler : Option CreateWebhookRequest → Handler
  create_webhook_handler body = do
    req ← decoded body (write_error 400 "invalid json body")
    guard (is_blank req.url || is_empty req.secret) (write_error 400 "url and secret are required")
    h ←
        or_else (create_webhook req.url req.secret req.events)
          (λ _. write_error 500 "failed to create webhook")
    return (respond 201 (webhook h))

  unfoldable pub list_webhooks_handler : Handler
  list_webhooks_handler = do
    hooks ← or_else list_webhooks (λ _. write_error 500 "failed to list webhooks")
    return (respond 200 (webhooks hooks))
