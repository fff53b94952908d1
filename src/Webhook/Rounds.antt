-- ===== src/Webhook/Rounds.antt =====
-- `dispatch` and `run` of internal/webhook/dispatcher.go: which consumers a job reaches, and the
-- order in which jobs leave the channel.
use node_panel.Prelude.{
  append_nil, append_assoc, All, length, ℕ, ◌≤◌, String, true, false, List, [], ◌∷◌, ◌++◌, ◌≡◌, inl,
  inr, refl, ap, sym, ◌∙◌, arith, Bool-cases,
}
use node_panel.Domain.{WebhookEndpoint}
use node_panel.Wire.{Job, WebhookRequest, PostReply}
use node_panel.Runtime.{Env, World}
use node_panel.Runtime.Exec.{Err, ok}
use node_panel.Store.Webhooks.{record_webhook_delivery, insert_delivery}
use node_panel.Store.Effects.{Wrote}
use node_panel.Webhook.{deliver_with_retry, deliver_all, signed_request, written_post}
use node_panel.Webhook.Filter.{subscribed}
use node_panel.Webhook.Delivery.{Reply, posts_of, deliver_with_retry-Tried}

module _ ⦃env : Env⦄ where
  -- The posts of one job over a list of endpoints, in its order: one to three tries of the signed
  -- request for every endpoint that has subscribed to the event, with what each of them posted, and
  -- none for another.
  pub data Served (j : Job) : List WebhookEndpoint → List WebhookRequest → Type 0 where
    all_served : Served j [] []
    passed_over :
        (ep : WebhookEndpoint) (eps : List WebhookEndpoint) (posts : List WebhookRequest)
        → subscribed ep.events j.event ≡ false
        → Served j eps posts
        → Served j (ep ∷ eps) posts
    tried_at :
        (ep : WebhookEndpoint) (eps : List WebhookEndpoint) (posts : List WebhookRequest)
        (earlier : List PostReply) (last : PostReply)
        → subscribed ep.events j.event ≡ true
        → length earlier ≤ 2
        → All (Reply ep j) earlier
        → Reply ep j last
        → Served j eps posts
        → Served j (ep ∷ eps) (
            (posts_of (signed_request ep j) earlier ++ written_post (signed_request ep j) last)
            ++ posts)

  -- what is not the posts and the recorded deliveries
  pub record Quiet (w w' : World) : Type 0 where
    pub queue : w'.queue ≡ w.queue
    pub sent : w'.sent ≡ w.sent
    pub endpoints : w'.db.webhook_endpoints ≡ w.db.webhook_endpoints

  abbrev pub ServedResult : Job → List WebhookEndpoint → World → World → Type 0
  ServedResult j eps w w' =
      (posts : List WebhookRequest) × Served j eps posts
      × (w'.posted ≡ w.posted ++ posts)
      × Quiet w w'

  record_webhook_delivery-Wrote :
      (i e p s : String) (n : ℕ) (w : World) → Wrote w (record_webhook_delivery i e p s n w).1
  unfolding record_webhook_delivery
  record_webhook_delivery-Wrote i e p s n w = ground arith

  endpoints-record_webhook_delivery :
      (i e p s : String) (n : ℕ) (w : World)
      → (record_webhook_delivery i e p s n w).1.db.webhook_endpoints ≡ w.db.webhook_endpoints
  unfolding record_webhook_delivery insert_delivery
  endpoints-record_webhook_delivery i e p s n w = ground arith

  pub deliver_all-Served :
      (eps : List WebhookEndpoint) (j : Job) (w : World)
      → ((deliver_all {E = Err} eps j w).0 ≡ ok tt)
        × ServedResult j eps w (deliver_all {E = Err} eps j w).1
  unfolding deliver_all
  deliver_all-Served [] j w = (
    refl,
    (
      [],
      all_served,
      sym (append_nil w.posted),
      record { queue = refl; sent = refl; endpoints = refl },
    ),
  )
  deliver_all-Served (ep ∷ eps) j w = elim (Bool-cases (subscribed ep.events j.event)) [
    | inl e ↦ rw e (
        let (status, n, result, t) = deliver_with_retry-Tried ep j w in
        let w1 = (deliver_with_retry {E = Err} ep j w).1 in
        let w2 = (record_webhook_delivery ep.id j.event j.body status n w1).1 in
        let kept = record_webhook_delivery-Wrote ep.id j.event j.body status n w1 in
        let (done, (posts, served, posted, quiet)) = deliver_all-Served eps j w2 in
        rw result (
          done,
          (
            _,
            tried_at ep eps posts t.earlier t.last e t.within t.genuine t.genuine_last served,
            posted ∙ ap (λ l. l ++ posts) (kept.posted ∙ t.posts) ∙ append_assoc w.posted _ posts,
            record {
              queue = quiet.queue ∙ kept.queue ∙ t.queue;
              sent = quiet.sent ∙ kept.sent ∙ t.sent;
              endpoints =
                  quiet.endpoints
                  ∙ endpoints-record_webhook_delivery ep.id j.event j.body status n w1
                  ∙ ap (λ db. db.webhook_endpoints) t.db;
            },
          ),
        ))
    | inr e ↦ rw e (
        let (done, (posts, served, posted, quiet)) = deliver_all-Served eps j w in
        (done, (posts, passed_over ep eps posts e served, posted, quiet)))
  ]
