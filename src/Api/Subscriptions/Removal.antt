-- ===== src/Api/Subscriptions/Removal.antt =====
-- `deleteSubscription` of internal/api/subscriptions.go: the row goes only after the tenant.
use node_panel.Prelude.{
  String, true, false, [], ◌∷◌, ◌++◌, ◌≡◌, ◌≢◌, ◌⊎◌, inl, inr, refl, arith, Bool-cases, ◌∙◌, ap,
}
use node_panel.Prelude.Text.{is_empty}
use node_panel.Domain.{Node, Subscription}
use node_panel.Wire.{Sent}
use node_panel.Runtime.{Env, World, next}
use node_panel.Runtime.Exec.{Err, ok, err, Result-cases}
use node_panel.Store.Subscriptions.{
  get_subscription, delete_subscription, select_subscription, has_id,
}
use node_panel.Store.Nodes.{get_node, select_node}
use node_panel.Store.Effects.{
  next-get_subscription, get_subscription-ok, next-get_node, get_node-ok, without_subscription,
  delete_subscription-Wrote, db-delete_subscription_ok, db-delete_subscription_err,
}
use node_panel.NodeClient.{client_for_node, delete}
use node_panel.NodeClient.Calls.{accepted, delete_request, delete-Untouched, delete-Delivered}
use node_panel.Api.Response.{Response, serve, not_found_or_500}
use node_panel.Api.Subscriptions.{delete_subscription_handler, deprovision}

module _ ⦃env : Env⦄ where
  -- The node of the subscription has accepted the deletion of its tenant, as the one request
  -- that was sent.
  abbrev pub TenantRemoved : Subscription → World → World → Type 0
  TenantRemoved sub w w' =
      (n : Node) × (s : Sent) × (select_node sub.node_id w.db ≡ ok n)
      × (s.request ≡ delete_request (client_for_node n) sub.node_tenant_id)
      × (accepted s ≡ true)
      × (w'.sent ≡ w.sent ++ s ∷ [])

  abbrev pub Gone : String → World → Response × World → Type 0
  Gone id w (r, w') =
      (r.code ≡ 204)
      × (sub : Subscription) × (select_subscription (has_id id) w.db ≡ ok sub)
      × (w'.db ≡ without_subscription id w.db)
      × (is_empty sub.node_tenant_id ≡ false → TenantRemoved sub w w')

  abbrev pub Kept : World → Response × World → Type 0
  Kept w (r, w') = (r.code ≢ 204) × (w'.db ≡ w.db)

  refused_code : (e : Err) → (not_found_or_500 e).code ≢ 204
  refused_code e = ground arith

  module _ (sub : Subscription) (w : World) where
    pub db-deprovision : (deprovision sub w).1.db ≡ w.db
    unfolding deprovision
    db-deprovision = elim (Bool-cases (is_empty sub.node_tenant_id)) [
      | inl none_there ↦ rw none_there
      | inr given ↦ rw given (elim (Result-cases (get_node sub.node_id w).0) [
        | inr (e, h) ↦ rw (h, next-get_node sub.node_id w)
        | inl (n, h) ↦
            rw (h, next-get_node sub.node_id w)
              (delete-Untouched (client_for_node n) sub.node_tenant_id (next w)).db
      ])
    ]

    deprovision_code : {r : Response} → (deprovision sub w).0 ≡ err r → r.code ≡ 502
    unfolding deprovision
    deprovision_code h = ground arith

    pub deprovision-TenantRemoved :
        is_empty sub.node_tenant_id ≡ false
        → (deprovision sub w).0 ≡ ok tt
        → TenantRemoved sub w (deprovision sub w).1
    unfolding deprovision
    deprovision-TenantRemoved given = rw given (elim (Result-cases (get_node sub.node_id w).0) [
      | inr (e, h) ↦ rw (h, next-get_node sub.node_id w) (λ k. cc)
      | inl (n, h) ↦
          rw (h, next-get_node sub.node_id w)
            (elim (Result-cases (delete (client_for_node n) sub.node_tenant_id (next w)).0) [
              | inr (e, refused) ↦ rw refused (λ k. cc)
              | inl (u, done) ↦ λ k.
                  let d = delete-Delivered (client_for_node n) sub.node_tenant_id (next w) done in
                  (n, _, get_node-ok sub.node_id w h, refl, d.took, d.sent)
            ])
    ])

  -- Every deletion either answers 204, and then the row that was there is gone, no other table has
  -- changed and the node had accepted the deletion of its tenant (where it has one); or it
  -- answers with an error and no table has changed.
  pub delete_subscription_handler-Gone :
      (id : String) (w : World)
      → Gone id w (serve (delete_subscription_handler id) w)
        ⊎ Kept w (serve (delete_subscription_handler id) w)
  unfolding delete_subscription_handler
  delete_subscription_handler-Gone id w = elim (Result-cases (get_subscription id w).0) [
    | inr (e, h) ↦ rw (h, next-get_subscription id w) (inr (refused_code e, refl))
    | inl (sub, h) ↦
        rw (h, next-get_subscription id w)
          (elim (Result-cases (deprovision sub (next w)).0) [
            | inr (r, k) ↦
                rw k (
                  inr
                    (ground (arith, deprovision_code sub (next w) k), db-deprovision sub (next w)))
            | inl (u, k) ↦
                let w1 = (deprovision sub (next w)).1 in
                rw k (elim (Result-cases (delete_subscription id w1).0) [
                  | inr (e, d) ↦ rw d (
                      inr (
                        refused_code e,
                        db-delete_subscription_err id w1 d ∙ db-deprovision sub (next w),
                      ))
                  | inl (u, d) ↦ rw d (
                      inl (
                        refl,
                        sub,
                        get_subscription-ok id w h,
                        db-delete_subscription_ok id w1 d
                            ∙ ap (without_subscription id) (db-deprovision sub (next w)),
                        λ given.
                            let (n, s, found, asked, took, sent) =
                              deprovision-TenantRemoved sub (next w) given k in
                            (
                              n,
                              s,
                              found,
                              asked,
                              took,
                              (delete_subscription-Wrote id w1).sent ∙ sent,
                            ),
                      ))
                ])
          ])
  ]
