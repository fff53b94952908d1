-- ===== src/Api/Quota/Topup.antt =====
-- `topupQuota` of internal/api/subscriptions.go, while the database answers: the quota is raised
-- here and on the node, or nowhere.
use node_panel.Prelude.{
  append_nil, ℕ, String, true, false, none, List, [], ◌∷◌, ◌++◌, ◌≡◌, ◌≢◌, inl, inr, refl, ap, sym,
  ◌∙◌, arith, update, update-update, All-map, update-cong,
}
use node_panel.Prelude.Int.{ℤ, pos, ◌+ℤ◌, leb_ℤ, eqb_ℤ, in_int64, sub64}
use node_panel.Domain.{Node, Subscription}
use node_panel.Schema.{Db, SubscriptionRow}
use node_panel.Wire.{Sent, SetQuotaRequest, TenantView}
use node_panel.Runtime.{Env, World}
use node_panel.Runtime.Exec.{ok}
use node_panel.Store.Subscriptions.{
  select_subscription, has_id, add_subscription_quota, update_subscription_status,
  update_subscription_notified, raise_quota, replace_status, replace_notified,
}
use node_panel.Store.Nodes.{select_node}
use node_panel.Store.Updates.{
  rows_changed, db-update_subscription_status, update_subscription_status-Wrote,
  db-update_subscription_notified, update_subscription_notified-Wrote,
}
use node_panel.Store.Quota.{
  SoundRows, rows_back, db-add_subscription_quota, add_subscription_quota-Wrote, raise_quota-Sound,
  negate_nonzero, id-raise_quota,
}
use node_panel.NodeClient.{Client, client_for_node, push_quota, resume}
use node_panel.NodeClient.Calls.{accepted}
use node_panel.NodeClient.TenantCalls.{
  quota_request, push_quota-Untouched, push_quota-Delivered, resume-Untouched, sent-resume,
}
use node_panel.Api.Response.{Response}
use node_panel.Api.Threshold.{threshold_level}

-- the row of a subscription after a top-up
abbrev pub topped_up : ℤ → ℕ → SubscriptionRow → SubscriptionRow
topped_up add level r = record r {
  quota_bytes = r.quota_bytes +ℤ add;
  status = "active";
  notified_threshold = level;
}

module _ ⦃env : Env⦄ where
  abbrev pub new_quota_request : Subscription → ℤ → SetQuotaRequest
  new_quota_request sub add = record {
    quota_bytes = sub.quota_bytes +ℤ add;
    credit_limit_bytes = sub.credit_limit_bytes;
    expire_at = sub.end_at;
  }

  -- The new quota was accepted by the node, as the first request, and is the stored one.
  abbrev pub ToppedUp : String → ℤ → World → Response × World → Type 0
  ToppedUp id add w (r, w') =
      (r.code ≡ 200)
      × (sub : Subscription) × (n : Node) × (s : Sent) × (rest : List Sent) × (select_subscription
            (has_id id) w.db
          ≡ ok sub)
      × (select_node sub.node_id w.db ≡ ok n)
      × (s.request
          ≡ quota_request (client_for_node n) sub.node_tenant_id (new_quota_request sub add))
      × (accepted s ≡ true)
      × (w'.sent ≡ (w.sent ++ s ∷ []) ++ rest)
      × (w'.db
          ≡ rows_changed id
              (topped_up add (threshold_level sub.used_bytes (sub.quota_bytes +ℤ add))) w.db)

  abbrev pub NotToppedUp : World → Response × World → Type 0
  NotToppedUp w (r, w') = (r.code ≢ 200) × (w'.db ≡ w.db)

  resume_rest :
      (c : Client) (t : String) (w : World)
      → (rest : List Sent) × ((resume c t w).1.sent ≡ w.sent ++ rest)
  resume_rest c t w = elim (sent-resume c t w) [
    | inl e ↦ ([], e ∙ sym (append_nil w.sent))
    | inr e ↦ (_, e)
  ]

  update_same_lem :
      (id : String) (add : ℤ) (level : ℕ) (db : Db)
      → SoundRows id add db
      → rows_changed id
          (replace_notified level)
          (rows_changed id (replace_status "active") (rows_changed id (raise_quota add) db))
        ≡ rows_changed id (topped_up add level) db
  update_same_lem id add level db sound =
      let p = has_id id in
      let status = replace_status "active" in
      ap (λ xs. record db { subscriptions = xs })
        (ap (update p (replace_notified level))
            (update-update p (raise_quota add) status db.subscriptions (id-raise_quota id add))
          ∙ update-update p (λ r. status (raise_quota add r)) (replace_notified level)
              db.subscriptions (id-raise_quota id add)
          ∙ update-cong p _ (topped_up add level) db.subscriptions (
              All-map _ _
                (λ r s h.
                  ap (λ q. replace_notified level (status q)) (raise_quota-Sound add r (s h)))
                db.subscriptions sound))

  pub nonzero : (add : ℤ) → leb_ℤ add (pos 0) ≡ false → eqb_ℤ add (pos 0) ≡ false
  nonzero add h = ground arith

  module _ (id : String) (add : ℤ) (sub : Subscription) (n : Node) (w : World) where
    abbrev pub raised : World
    raised = (add_subscription_quota id add w).1

    abbrev pub pushed : World
    pushed =
        (push_quota (client_for_node n) sub.node_tenant_id (new_quota_request sub add) raised).1

    abbrev pub resumed : World
    resumed = (resume (client_for_node n) sub.node_tenant_id pushed).1

    abbrev pub active : World
    active = (update_subscription_status id "active" resumed).1

    abbrev pub level : ℕ
    level = threshold_level sub.used_bytes (sub.quota_bytes +ℤ add)

    module _ (answers : (t : ℕ) → env.db_fault t ≡ none) (positive : leb_ℤ add (pos 0) ≡ false)
        (small : in_int64 add ≡ true) (sound : SoundRows id add w.db) where
      db-resumed : resumed.db ≡ rows_changed id (raise_quota add) w.db
      db-resumed =
          (resume-Untouched (client_for_node n) sub.node_tenant_id pushed).db
          ∙ (push_quota-Untouched (client_for_node n) sub.node_tenant_id raised
              (new_quota_request sub add)).db
          ∙ db-add_subscription_quota id w answers add (nonzero add positive)

      pub db_final :
          (update_subscription_notified id level active).1.db
          ≡ rows_changed id (topped_up add level) w.db
      db_final =
          db-update_subscription_notified id active (answers active.tick) level
          ∙ ap (rows_changed id (replace_notified level))
              (db-update_subscription_status id resumed (answers resumed.tick) "active")
          ∙ ap
              (λ d.
                rows_changed id (replace_notified level)
                  (rows_changed id (replace_status "active") d))
              db-resumed
          ∙ update_same_lem id add level w.db sound

      pub db_undone : (add_subscription_quota id (sub64 (pos 0) add) pushed).1.db ≡ w.db
      db_undone =
          db-add_subscription_quota id pushed answers (sub64 (pos 0) add)
            (negate_nonzero add small positive)
          ∙ ap (rows_changed id (raise_quota (sub64 (pos 0) add))) (
              (push_quota-Untouched (client_for_node n) sub.node_tenant_id raised
                (new_quota_request sub add)).db
              ∙ db-add_subscription_quota id w answers add (nonzero add positive))
          ∙ rows_back id add w.db small positive sound

      pub topped_up_sent :
          {v : TenantView}
          → (push_quota (client_for_node n) sub.node_tenant_id (new_quota_request sub add) raised).0
            ≡ ok v
          → (s : Sent) × (rest : List Sent) × (s.request
              ≡ quota_request (client_for_node n) sub.node_tenant_id (new_quota_request sub add))
            × (accepted s ≡ true)
            × ((update_subscription_notified id level active).1.sent ≡ (w.sent ++ s ∷ []) ++ rest)
      topped_up_sent h =
          let c = client_for_node n in
          let d = push_quota-Delivered c sub.node_tenant_id raised (new_quota_request sub add) h in
          let (rest, resumed_sent) = resume_rest c sub.node_tenant_id pushed in
          let call : Sent = record {
            at = raised.tick;
            request = quota_request c sub.node_tenant_id (new_quota_request sub add);
          } in
          (
            call,
            rest,
            refl,
            d.took,
            (update_subscription_notified-Wrote id level active).sent
                ∙ (update_subscription_status-Wrote id resumed "active").sent
                ∙ resumed_sent
                ∙ ap (λ xs. xs ++ rest)
                    (d.sent
                      ∙ ap (λ xs. xs ++ call ∷ []) (add_subscription_quota-Wrote id add w).sent),
          )
