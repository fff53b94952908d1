-- ===== src/Api/Lifecycle/Deprovision.antt =====
-- The loop of `deleteCustomer` in internal/api/lifecycle.go: every node has to give up its tenant
-- before the first row is touched.
use node_panel.Prelude.{
  append_nil, append_assoc, true, false, List, [], ◌∷◌, ◌++◌, ◌≡◌, inl, inr, refl, ap, sym, ◌∙◌,
  arith, Bool-cases,
}
use node_panel.Prelude.Text.{is_empty}
use node_panel.Domain.{Node, Subscription}
use node_panel.Schema.{Db}
use node_panel.Wire.{Sent}
use node_panel.Runtime.{Env, World, next}
use node_panel.Runtime.Exec.{ok, err, Result-cases}
use node_panel.Store.Nodes.{get_node, select_node}
use node_panel.Store.Effects.{next-get_node, get_node-ok}
use node_panel.NodeClient.{client_for_node, delete}
use node_panel.NodeClient.Calls.{accepted, delete_request, delete-Untouched, delete-Delivered}
use node_panel.Api.Response.{Response}
use node_panel.Api.Lifecycle.{delete_tenants}

module _ ⦃env : Env⦄ where
  -- The requests that took the tenants of the subscriptions off their nodes, in order: one for
  -- each subscription that has a tenant, to its own node, and accepted there.
  pub data Deprovisioned (db : Db) : List Subscription → List Sent → Type 0 where
    all_done : Deprovisioned db [] []
    no_tenant :
        (s : Subscription) (ss : List Subscription) (calls : List Sent)
        → is_empty s.node_tenant_id ≡ true
        → Deprovisioned db ss calls
        → Deprovisioned db (s ∷ ss) calls
    given_up :
        (s : Subscription) (ss : List Subscription) (call : Sent) (calls : List Sent) (n : Node)
        → is_empty s.node_tenant_id ≡ false
        → select_node s.node_id db ≡ ok n
        → call.request ≡ delete_request (client_for_node n) s.node_tenant_id
        → accepted call ≡ true
        → Deprovisioned db ss calls
        → Deprovisioned db (s ∷ ss) (call ∷ calls)

  abbrev pub GivenUp : List Subscription → World → World → Type 0
  GivenUp subs w w' =
      (calls : List Sent) × (Deprovisioned w.db subs calls) × (w'.sent ≡ w.sent ++ calls)

  pub db-delete_tenants :
      (subs : List Subscription) (w : World) → (delete_tenants subs w).1.db ≡ w.db
  unfolding delete_tenants
  db-delete_tenants [] w = refl
  db-delete_tenants (s ∷ ss) w = elim (Bool-cases (is_empty s.node_tenant_id)) [
    | inl e ↦ rw e (db-delete_tenants ss w)
    | inr e ↦ rw e (elim (Result-cases (get_node s.node_id w).0) [
      | inr (x, h) ↦ rw (h, next-get_node s.node_id w) refl
      | inl (n, h) ↦
          rw (h, next-get_node s.node_id w)
            (let c = client_for_node n in
              let kept = (delete-Untouched c s.node_tenant_id (next w)).db in
              elim (Result-cases (delete c s.node_tenant_id (next w)).0) [
                | inr (x, k) ↦ rw k kept
                | inl (u, k) ↦
                    rw k (db-delete_tenants ss (delete c s.node_tenant_id (next w)).1 ∙ kept)
              ])
    ])
  ]

  pub delete_tenants_code :
      (subs : List Subscription) (w : World) {r : Response}
      → (delete_tenants subs w).0 ≡ err r
      → r.code ≡ 502
  unfolding delete_tenants
  delete_tenants_code [] w = λ h. ground arith
  delete_tenants_code (s ∷ ss) w = elim (Bool-cases (is_empty s.node_tenant_id)) [
    | inl e ↦ rw e (delete_tenants_code ss w)
    | inr e ↦ rw e (elim (Result-cases (get_node s.node_id w).0) [
      | inr (x, h) ↦ rw h (λ k. ground arith)
      | inl (n, h) ↦
          rw (h, next-get_node s.node_id w)
            (let c = client_for_node n in
              elim (Result-cases (delete c s.node_tenant_id (next w)).0) [
                | inr (x, k) ↦ rw k (λ k. ground arith)
                | inl (u, k) ↦ rw k (delete_tenants_code ss (delete c s.node_tenant_id (next w)).1)
              ])
    ])
  ]

  -- The store is read again for each subscription, and it is the one that the loop began with.
  given_up_from :
      (db : Db) (subs : List Subscription) (w : World)
      → w.db ≡ db
      → (delete_tenants subs w).0 ≡ ok tt
      → (calls : List Sent) × Deprovisioned db subs calls
        × ((delete_tenants subs w).1.sent ≡ w.sent ++ calls)
  unfolding delete_tenants
  given_up_from db [] w same = λ h. ([], all_done, sym (append_nil w.sent))
  given_up_from db (s ∷ ss) w same = elim (Bool-cases (is_empty s.node_tenant_id)) [
    | inl e ↦ rw e (λ h.
        let (calls, done, sent) = given_up_from db ss w same h in
        (calls, no_tenant s ss calls e done, sent))
    | inr e ↦ rw e (elim (Result-cases (get_node s.node_id w).0) [
      | inr (x, h) ↦ rw (h, next-get_node s.node_id w) (λ k. cc)
      | inl (n, h) ↦
          rw (h, next-get_node s.node_id w)
            (let c = client_for_node n in
              elim (Result-cases (delete c s.node_tenant_id (next w)).0) [
                | inr (x, k) ↦ rw k (λ k. cc)
                | inl (u, k) ↦ rw k (λ r.
                    let w1 = (delete c s.node_tenant_id (next w)).1 in
                    let d = delete-Delivered c s.node_tenant_id (next w) k in
                    let kept = (delete-Untouched c s.node_tenant_id (next w)).db in
                    let (calls, done, sent) = given_up_from db ss w1 (kept ∙ same) r in
                    (
                      _ ∷ calls,
                      given_up s ss _ calls n e
                          (ap (select_node s.node_id) (sym same) ∙ get_node-ok s.node_id w h) refl
                          d.took done,
                      sent ∙ ap (λ xs. xs ++ calls) d.sent ∙ append_assoc w.sent (_ ∷ []) calls,
                    ))
              ])
    ])
  ]

  pub delete_tenants-GivenUp :
      (subs : List Subscription) (w : World)
      → (delete_tenants subs w).0 ≡ ok tt
      → GivenUp subs w (delete_tenants subs w).1
  delete_tenants-GivenUp subs w = given_up_from w.db subs w refl
