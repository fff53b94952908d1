-- ===== src/Api/Subscriptions/Provision.antt =====
-- `createSubscription` of internal/api/subscriptions.go: a tenant that was created on the node is
-- recorded, or is deleted there again.
use node_panel.Prelude.{
  select-append_new, ℕ, String, none, some, [], ◌∷◌, ◌++◌, ◌≡◌, ◌⊎◌, inl, inr, refl, Option-cases,
  eq_refl, subst, sym, ◌∙◌,
}
use node_panel.Domain.{Subscription}
use node_panel.Schema.{Db, ApiKeyRow}
use node_panel.Runtime.{Env, World}
use node_panel.Runtime.Exec.{Err, ok, err, Result-cases}
use node_panel.Store.Subscriptions.{has_id, create_subscription, delete_subscription, new_row}
use node_panel.Store.Effects.{
  delete_subscription-Wrote, db-delete_subscription, db-delete_subscription_failed,
}
use node_panel.Store.Creation.{
  SameTerms, add_row, create_subscription-Wrote, db-create_subscription_err,
  db-create_subscription_ok, create_api_key-Wrote, db-create_api_key_err, db-create_api_key_ok,
}
use node_panel.NodeClient.{Client, delete}
use node_panel.NodeClient.Calls.{Attempted, delete_request, delete-Untouched, sent-delete}
use node_panel.Api.Response.{Response, serve}
use node_panel.Api.Subscriptions.{persist, created_response, store_keyed}

module _ ⦃env : Env⦄ where
  abbrev pub add_key : ApiKeyRow → Db → Db
  add_key k db = record db { api_keys = db.api_keys ++ k ∷ [] }

  -- The driver failed while the row was deleted again: it is all that has been added.
  abbrev pub LeftOver : Subscription → World → World → Type 0
  LeftOver sub w w' =
      (sub' : Subscription) × (t : ℕ) × (e : String) × (env.db_fault t ≡ some e)
      × SameTerms sub sub'
      × (w'.db ≡ add_row sub' w.db)

  abbrev pub Stored : Subscription → String → String → World → Response × World → Type 0
  Stored sub raw_key address w (r, w') =
      (sub' : Subscription) × (k : ApiKeyRow) × (r ≡ created_response sub' raw_key address)
      × SameTerms sub sub'
      × (k.customer_id ≡ sub.customer_id)
      × (k.key_hash ≡ env.sha256_hex raw_key)
      × (w'.db ≡ add_key k (add_row sub' w.db))
      × (w'.sent ≡ w.sent)

  abbrev pub Compensated : Client → Subscription → World → Response × World → Type 0
  Compensated c sub w (r, w') =
      (r.code ≡ 500)
      × ((t : ℕ) × Attempted c (delete_request c sub.node_tenant_id) t w.sent w'.sent)
      × ((w'.db ≡ w.db) ⊎ LeftOver sub w w')

  module _ (c : Client) (sub : Subscription) (raw_key address : String) (w : World) where
    abbrev after_store : World
    after_store = (create_subscription sub w).1

    abbrev after_key : World
    after_key = (store_keyed sub raw_key after_store).1

    abbrev after_undo : World
    after_undo = (delete c sub.node_tenant_id after_key).1

    unstored :
        {e : Err}
        → (create_subscription sub w).0 ≡ err e
        → Compensated c sub w (serve (persist c sub raw_key address) w)
    unfolding persist
    unstored h = rw h (
      refl,
      (
        after_store.tick,
        subst
            (λ l.
              Attempted c (delete_request c sub.node_tenant_id) after_store.tick l
                (delete c sub.node_tenant_id after_store).1.sent)
            (create_subscription-Wrote sub w).sent (sent-delete c sub.node_tenant_id after_store),
      ),
      inl (
          cc (
            (delete-Untouched c sub.node_tenant_id after_store).db,
            db-create_subscription_err sub w h,
          )),
    )

    -- the row of a subscription whose key was refused is deleted again
    undone :
        {e : Err} (sub' : Subscription)
        → (create_subscription sub w).0 ≡ ok sub'
        → (store_keyed sub raw_key after_store).0 ≡ err e
        → env.db_fault after_undo.tick ≡ none
        → (delete_subscription sub'.id after_undo).1.db ≡ w.db
    unfolding new_row
    undone sub' h k quiet =
        let stored = db-create_subscription_ok sub w h in
        cc (
          db-delete_subscription sub'.id after_undo quiet,
          (delete-Untouched c sub.node_tenant_id after_key).db,
          db-create_api_key_err _ _ _ after_store k,
          stored.0,
          select-append_new (has_id sub'.id) w.db.subscriptions (new_row sub') stored.1
              (eq_refl sub'.id),
        )

    left_over :
        {e : Err} {text : String} (sub' : Subscription)
        → (create_subscription sub w).0 ≡ ok sub'
        → (store_keyed sub raw_key after_store).0 ≡ err e
        → env.db_fault after_undo.tick ≡ some text
        → (delete_subscription sub'.id after_undo).1.db ≡ add_row sub' w.db
    left_over sub' h k failed = cc (
      db-delete_subscription_failed sub'.id after_undo failed,
      (delete-Untouched c sub.node_tenant_id after_key).db,
      db-create_api_key_err _ _ _ after_store k,
      (db-create_subscription_ok sub w h).0,
    )

    unkeyed :
        {e : Err} (sub' : Subscription)
        → (create_subscription sub w).0 ≡ ok sub'
        → (store_keyed sub raw_key after_store).0 ≡ err e
        → Compensated c sub w (serve (persist c sub raw_key address) w)
    unfolding persist
    unkeyed sub' h k =
        rw (h, k)
          (
            refl,
            (
              after_key.tick,
              subst (λ l. Attempted c (delete_request c sub.node_tenant_id) after_key.tick w.sent l)
                  (sym (delete_subscription-Wrote sub'.id after_undo).sent)
                  (subst
                    (λ l.
                      Attempted c (delete_request c sub.node_tenant_id) after_key.tick l
                        after_undo.sent)
                    ((create_api_key-Wrote _ _ _ after_store).sent
                      ∙ (create_subscription-Wrote sub w).sent)
                    (sent-delete c sub.node_tenant_id after_key)),
            ),
            elim (Option-cases (env.db_fault after_undo.tick)) [
              | inl quiet ↦ inl (undone sub' h k quiet)
              | inr (e, failed) ↦ inr (
                sub',
                after_undo.tick,
                e,
                failed,
                (db-create_subscription_ok sub w h).2,
                left_over sub' h k failed,
              )
            ],
          )

    kept :
        (sub' : Subscription)
        → (create_subscription sub w).0 ≡ ok sub'
        → (store_keyed sub raw_key after_store).0 ≡ ok tt
        → Stored sub raw_key address w (serve (persist c sub raw_key address) w)
    unfolding persist
    kept sub' h k =
        let stored = db-create_subscription_ok sub w h in
        let (key, added, owner, hashed, live) = db-create_api_key_ok _ _ _ after_store k in
        rw (h, k)
          (
            sub',
            key,
            refl,
            stored.2,
            owner,
            hashed,
            cc (added, stored.0),
            cc (
              (create_api_key-Wrote _ _ _ after_store).sent,
              (create_subscription-Wrote sub w).sent,
            ),
          )

    -- Once the tenant exists, either both rows are stored, with the terms given and the hash of the
    -- key, and the answer is 201; or the answer is 500, the deletion of the tenant is the one
    -- request sent, unless no connection opens, and no table has changed, but for the row of the
    -- subscription when the driver failed at its deletion.
    pub persist-Stored :
        Stored sub raw_key address w (serve (persist c sub raw_key address) w)
        ⊎ Compensated c sub w (serve (persist c sub raw_key address) w)
    persist-Stored = elim (Result-cases (create_subscription sub w).0) [
      | inr (e, h) ↦ inr (unstored h)
      | inl (sub', h) ↦ elim (Result-cases (store_keyed sub raw_key after_store).0) [
        | inr (e, k) ↦ inr (unkeyed sub' h k)
        | inl (u, k) ↦ inl (kept sub' h k)
      ]
    ]
