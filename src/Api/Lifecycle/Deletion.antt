-- ===== src/Api/Lifecycle/Deletion.antt =====
-- `deleteCustomer` and `deletePlan` of internal/api/lifecycle.go, and `deleteNode` of
-- internal/api/nodes.go: what is gone after an answer 204, and that nothing is after another.
use node_panel.Prelude.{
  String, true, false, List, ◌≡◌, ◌≢◌, ◌⊎◌, inl, inr, refl, ap, ◌∙◌, arith, Bool-cases, any, select,
  not, ltb,
}
use node_panel.Domain.{Subscription}
use node_panel.Runtime.{Env, World, next}
use node_panel.Runtime.Exec.{Err, ok, Result-cases}
use node_panel.Store.Table.{holds}
use node_panel.Store.Nodes
use node_panel.Store.Plans
use node_panel.Store.Nodes.{delete_node}
use node_panel.Store.Plans.{delete_plan}
use node_panel.Store.Customers.{delete_customer, without_customer}
use node_panel.Store.Subscriptions.{
  list_subscriptions_by_customer, count_subscriptions_by_node, scan_all,
}
use node_panel.Store.Removals.{
  rows_of_customer, on_node, next-list_subscriptions_by_customer, list_subscriptions_by_customer-ok,
  next-count_subscriptions_by_node, delete_customer-Wrote, db-delete_customer_ok,
  db-delete_customer_err, count_subscriptions_by_node-ok, db-delete_node_ok, db-delete_node_err,
  db-delete_plan_ok, db-delete_plan_err,
}
use node_panel.Api.Response.{Response, serve, not_found_or_500}
use node_panel.Api.Lifecycle.{
  delete_customer_handler, delete_node_handler, delete_plan_handler, delete_tenants,
}
use node_panel.Api.Lifecycle.Deprovision.{
  GivenUp, db-delete_tenants, delete_tenants_code, delete_tenants-GivenUp,
}

module _ ⦃env : Env⦄ where
  abbrev pub CustomerGone : String → World → Response × World → Type 0
  CustomerGone id w (r, w') =
      (r.code ≡ 204)
      × (subs : List Subscription) × (scan_all (rows_of_customer id w.db) ≡ ok subs)
      × GivenUp subs w w'
      × (w'.db ≡ without_customer id w.db)

  abbrev pub Refused : World → Response × World → Type 0
  Refused w (r, w') = (r.code ≢ 204) × (w'.db ≡ w.db)

  -- not found is 404, anything else 500
  error_code : (e : Err) → (not_found_or_500 e).code ≢ 204
  error_code e = ground arith

  -- On a connection that enforces foreign keys the deletion of a customer answers 204 only when
  -- every node has given up the customer's tenants; then the customer's row, its subscriptions and
  -- its keys are gone and nothing else. Otherwise no table has changed.
  pub delete_customer_handler-Gone :
      (id : String) (w : World)
      → w.db.shape.foreign_keys ≡ true
      → CustomerGone id w (serve (delete_customer_handler id) w)
        ⊎ Refused w (serve (delete_customer_handler id) w)
  unfolding delete_customer_handler
  delete_customer_handler-Gone id w enforced =
      elim (Result-cases (list_subscriptions_by_customer id w).0) [
        | inr (e, h) ↦
            rw (h, next-list_subscriptions_by_customer id w) (inr ((λ p. ground arith), refl))
        | inl (subs, h) ↦
            rw (h, next-list_subscriptions_by_customer id w)
              (let w1 = (delete_tenants subs (next w)).1 in
                elim (Result-cases (delete_tenants subs (next w)).0) [
                  | inr (r, k) ↦ rw k (
                      inr (
                        ground (arith, delete_tenants_code subs (next w) k),
                        db-delete_tenants subs (next w),
                      ))
                  | inl (u, k) ↦ rw k (elim (Result-cases (delete_customer id w1).0) [
                    | inr (e, d) ↦ rw d (
                        inr (
                          error_code e,
                          db-delete_customer_err id w1 d ∙ db-delete_tenants subs (next w),
                        ))
                    | inl (u, d) ↦ rw d (
                        let (calls, done, sent) = delete_tenants-GivenUp subs (next w) k in
                        inl (
                          refl,
                          subs,
                          list_subscriptions_by_customer-ok id w h,
                          (calls, done, (delete_customer-Wrote id w1).sent ∙ sent),
                          db-delete_customer_ok id w1
                                (ap (λ db. db.shape.foreign_keys) (db-delete_tenants subs (next w))
                                  ∙ enforced)
                                d
                              ∙ ap (without_customer id) (db-delete_tenants subs (next w)),
                        ))
                  ])
                ])
      ]

  abbrev pub NodeGone : String → World → Response × World → Type 0
  NodeGone id w (r, w') =
      (r.code ≡ 204)
      × (on_node id w.db ≡ 0)
      × (w'.db ≡ record w.db { nodes = select (λ n. not (Nodes.has_id id n)) w.db.nodes })

  -- The deletion of a node answers 204 only when no subscription refers to it, and then its row
  -- is gone and nothing else; otherwise no table has changed.
  pub delete_node_handler-Gone :
      (id : String) (w : World)
      → NodeGone id w (serve (delete_node_handler id) w)
        ⊎ Refused w (serve (delete_node_handler id) w)
  unfolding delete_node_handler
  delete_node_handler-Gone id w = elim (Result-cases (count_subscriptions_by_node id w).0) [
    | inr (e, h) ↦ rw (h, next-count_subscriptions_by_node id w) (inr ((λ p. ground arith), refl))
    | inl (n, h) ↦
        rw (h, next-count_subscriptions_by_node id w)
          (elim (Bool-cases (ltb 0 n)) [
            | inl e ↦ rw e (inr ((λ p. ground arith), refl))
            | inr e ↦ rw e (elim (Result-cases (delete_node id (next w)).0) [
              | inr (x, d) ↦ rw d (inr (error_code x, db-delete_node_err id (next w) d))
              | inl (u, d) ↦ rw d (
                  inl (
                    refl,
                    ground (arith, e, count_subscriptions_by_node-ok id w h),
                    db-delete_node_ok id (next w) d,
                  ))
            ])
          ])
  ]

  abbrev pub PlanGone : String → World → Response × World → Type 0
  PlanGone id w (r, w') =
      (r.code ≡ 204)
      × (any (λ s. holds id s.plan_id) w.db.subscriptions ≡ false)
      × (w'.db ≡ record w.db { plans = select (λ p. not (Plans.has_id id p)) w.db.plans })

  -- On a connection that enforces foreign keys the deletion of a plan answers 204 only when no
  -- subscription is on the plan; otherwise no table has changed.
  pub delete_plan_handler-Gone :
      (id : String) (w : World)
      → w.db.shape.foreign_keys ≡ true
      → PlanGone id w (serve (delete_plan_handler id) w)
        ⊎ Refused w (serve (delete_plan_handler id) w)
  unfolding delete_plan_handler
  delete_plan_handler-Gone id w enforced = elim (Result-cases (delete_plan id w).0) [
    | inr (e, h) ↦ rw h (inr (error_code e, db-delete_plan_err id w h))
    | inl (u, h) ↦
        rw h (let (unused, gone) = db-delete_plan_ok id w enforced h in inl (refl, unused, gone))
  ]
