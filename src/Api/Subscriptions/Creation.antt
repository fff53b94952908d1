-- ===== src/Api/Subscriptions/Creation.antt =====
-- The whole of `createSubscription` of internal/api/subscriptions.go, from the request's body to
-- the tables and the requests to the node.
use node_panel.Prelude.{ℕ, String, true, Option, some, [], ◌∷◌, ◌++◌, ◌≡◌, ◌≢◌, ◌⊎◌}
use node_panel.Prelude.Int.{ℤ, pos, add64, mul64}
use node_panel.Domain.{Customer, Plan, Node, Subscription}
use node_panel.Wire.{Sent, CreateTenantRequest}
use node_panel.Runtime.{Env, World, next}
use node_panel.Runtime.Exec.{ok}
use node_panel.Schema.{ApiKeyRow}
use node_panel.Store.Customers.{select_customer}
use node_panel.Store.Plans.{select_plan}
use node_panel.Store.Nodes.{select_node}
use node_panel.Store.Creation.{SameTerms, add_row}
use node_panel.NodeClient.{Client, client_for_node, provision_tenant}
use node_panel.NodeClient.Calls.{Attempted, accepted, create_request, delete_request}
use node_panel.Api.Response.{Response}
use node_panel.Api.Subscriptions.{
  CreateSubscriptionRequest, tenant_request, new_subscription, created_response,
}
use node_panel.Api.Subscriptions.Provision.{LeftOver, add_key}

module _ ⦃env : Env⦄ where
  -- No table has changed, and at most the creation of a tenant was asked for; what the node made of
  -- it is not known when its reply is lost.
  abbrev pub Refused : World → Response × World → Type 0
  Refused w (r, w') =
      (r.code ≢ 201)
      × (w'.db ≡ w.db)
      × ((w'.sent ≡ w.sent)
          ⊎ ((c : Client) × (q : CreateTenantRequest) × (s : Sent) × (s.request
                ≡ create_request c q)
              × (w'.sent ≡ w.sent ++ s ∷ [])))

  -- The node accepted the tenant of the subscription `sub`, and both rows are there.
  abbrev pub Sold : Node → String → Subscription → Sent → World → Response × World → Type 0
  Sold node raw_key sub s w (r, w') =
      (sub' : Subscription) × (k : ApiKeyRow) × (r ≡ created_response sub' raw_key node.address)
      × SameTerms sub sub'
      × (k.customer_id ≡ sub.customer_id)
      × (k.key_hash ≡ env.sha256_hex raw_key)
      × (w'.db ≡ add_key k (add_row sub' w.db))
      × (w'.sent ≡ w.sent ++ s ∷ [])

  -- The node accepted the tenant, which could not be recorded. Its deletion was sent as the last
  -- request, unless no connection opened, and its reply was not looked at.
  abbrev pub Undone : Node → Subscription → Sent → World → Response × World → Type 0
  Undone node sub s w (r, w') =
      (r.code ≡ 500)
      × ((t : ℕ) × Attempted (client_for_node node)
            (delete_request (client_for_node node) sub.node_tenant_id) t (w.sent ++ s ∷ []) w'.sent)
      × ((w'.db ≡ w.db) ⊎ LeftOver sub w w')

  abbrev pub Provisioned : Customer → Plan → Node → ℤ → World → Response × World → Type 0
  Provisioned customer plan node credit w out =
      (now : ℤ) × (raw_key : String) × (tenant_id : String) × (s : Sent) × (let end_at =
          add64 now (mul64 plan.duration_days (pos 86400)) in
        let sub = new_subscription customer plan node credit now end_at raw_key tenant_id in
        (s.request
          ≡ create_request (client_for_node node)
              (tenant_request plan credit end_at raw_key tenant_id))
        × (accepted s ≡ true)
        × (Sold node raw_key sub s w out ⊎ Undone node sub s w out))

  module _ (customer : Customer) (plan : Plan) (node : Node) (req : CreateSubscriptionRequest)
      (w : World) where
    abbrev drawn : World
    drawn = next (next (next w))

    abbrev end_at : ℤ
    end_at = add64 (env.clock w.tick) (mul64 plan.duration_days (pos 86400))

    abbrev raw_key : String
    raw_key = env.uuid (next w).tick

    abbrev tenant_id : String
    tenant_id = env.uuid (next (next w)).tick

    abbrev asked : CreateTenantRequest
    asked = tenant_request plan req.credit_limit_bytes end_at raw_key tenant_id

    abbrev sub : Subscription
    sub =
        new_subscription customer plan node req.credit_limit_bytes (env.clock w.tick) end_at raw_key
          tenant_id

    abbrev c : Client
    c = client_for_node node

    abbrev asked_node : World
    asked_node = (provision_tenant c asked drawn).1

    abbrev creation : Sent
    creation = record { at = drawn.tick; request = create_request c asked }

  abbrev pub Ordered : String → Option CreateSubscriptionRequest → World → Response × World → Type 0
  Ordered customer_id body w out =
      (req : CreateSubscriptionRequest) × (customer : Customer) × (plan : Plan) × (node : Node)
      × (body ≡ some req)
      × (select_customer customer_id w.db ≡ ok customer)
      × (select_plan req.plan_id w.db ≡ ok plan)
      × (select_node req.node_id w.db ≡ ok node)
      × Provisioned customer plan node req.credit_limit_bytes w out
