-- ===== src/Api/Subscriptions/Switching.antt =====
-- `subscriptionLifecycle` of internal/api/subscriptions.go, the common body of suspending and
-- resuming: the order of its effects.
use node_panel.Prelude.{
  String, true, some, [], ◌∷◌, ◌++◌, ◌≡◌, ap, ◌≢◌, inl, inr, refl, Bool-cases, Option-cases, ◌∙◌,
  ◌==◌, if◌then◌else◌,
}
use node_panel.Prelude.Int.{ℤ}
use node_panel.Domain.{Node, Subscription}
use node_panel.Wire.{Sent}
use node_panel.Runtime.{Env, World}
use node_panel.Runtime.Exec.{ok}
use node_panel.Store.Subscriptions.{
  select_subscription, has_id, update_subscription_status, replace_status,
}
use node_panel.Store.Nodes.{select_node}
use node_panel.Store.Updates.{
  rows_changed, update_subscription_status-Wrote, db-update_subscription_status_ok,
}
use node_panel.NodeClient.{Client, client_for_node}
use node_panel.NodeClient.Calls.{Untouched, Delivered, accepted}
use node_panel.NodeClient.TenantCalls.{
  tenant_post, suspend-Untouched, suspend-Delivered, resume-Untouched, resume-Delivered,
}
use node_panel.Webhook.{enqueue}
use node_panel.Webhook.Queue.{Queued, emit-Queued, emit-ok, queue-emit}
use node_panel.Api.Response.{Response}
use node_panel.Api.Events.{emit_status_event, status_event, status_content}
use node_panel.Api.Subscriptions.{switch_tenant}

abbrev pub action_for : String → String
action_for target = if target == "suspended" then "/suspend" else "/resume"

module _ ⦃env : Env⦄ where
  -- The event of the new status has gone to the channel, rendered at some moment.
  abbrev pub Announced : Subscription → String → World → World → Type 0
  Announced sub target w w' =
      (t : ℤ) × ((event body : String)
        → status_event target ≡ some event
        → env.marshal_event
            (record { kind = event; timestamp = t; content = status_content sub target })
          ≡ some body
        → w'.queue ≡ enqueue (record { event = event; body = body }) w.queue)

  abbrev pub Switched : String → String → World → Response × World → Type 0
  Switched target id w (r, w') =
      (r.code ≡ 200)
      × (sub : Subscription) × (n : Node) × (s : Sent) × (select_subscription (has_id id) w.db
          ≡ ok sub)
      × (select_node sub.node_id w.db ≡ ok n)
      × (s.request ≡ tenant_post (client_for_node n) sub.node_tenant_id (action_for target))
      × (accepted s ≡ true)
      × (w'.sent ≡ w.sent ++ s ∷ [])
      × (w'.db ≡ rows_changed sub.id (replace_status target) w.db)
      × Announced sub target w w'

  abbrev pub Unswitched : World → Response × World → Type 0
  Unswitched w (r, w') = (r.code ≢ 200) × (w'.db ≡ w.db) × (w'.queue ≡ w.queue)

  module _ (target : String) (c : Client) (t : String) (w : World) where
    pub switch_tenant-Untouched : Untouched w (switch_tenant target c t w).1
    unfolding switch_tenant
    switch_tenant-Untouched = elim (Bool-cases (target == "suspended")) [
      | inl e ↦ rw e (suspend-Untouched c t w)
      | inr e ↦ rw e (resume-Untouched c t w)
    ]

    pub switch_tenant-Delivered :
        (switch_tenant target c t w).0 ≡ ok tt
        → Delivered (tenant_post c t (action_for target)) w (switch_tenant target c t w).1
    unfolding switch_tenant
    switch_tenant-Delivered = elim (Bool-cases (target == "suspended")) [
      | inl e ↦ rw e (suspend-Delivered c t w)
      | inr e ↦ rw e (resume-Delivered c t w)
    ]

  module _ (sub : Subscription) (target : String) (w : World) where
    pub emit_status_event-ok : (emit_status_event {E = Response} sub target w).0 ≡ ok tt
    unfolding emit_status_event
    emit_status_event-ok = elim (Option-cases (status_event target)) [
      | inl e ↦ rw e refl
      | inr (event, e) ↦ rw e (emit-ok Response event (status_content sub target) w)
    ]

    pub emit_status_event-Queued : Queued w (emit_status_event {E = Response} sub target w).1
    unfolding emit_status_event
    emit_status_event-Queued = elim (Option-cases (status_event target)) [
      | inl e ↦ rw e (record { db = refl; sent = refl; posted = refl })
      | inr (event, e) ↦ rw e (emit-Queued Response event (status_content sub target) w)
    ]

    pub emit_status_event-Announced :
        Announced sub target w (emit_status_event {E = Response} sub target w).1
    unfolding emit_status_event
    emit_status_event-Announced = (
      env.clock w.tick,
      λ event body e m. rw e (queue-emit Response event (status_content sub target) w body m),
    )

  -- The part of `subscriptionLifecycle` that follows the two look-ups.
  module _ (target id : String) (sub : Subscription) (n : Node) (w : World) where
    abbrev pub after_node : World
    after_node = (switch_tenant target (client_for_node n) sub.node_tenant_id w).1

    abbrev pub after_row : World
    after_row = (update_subscription_status sub.id target after_node).1

    abbrev pub changed : Subscription
    changed = record sub { status = target }

    abbrev pub after_event : World
    after_event = (emit_status_event {E = Response} changed target after_row).1

    pub db-after_node : after_node.db ≡ w.db
    db-after_node = (switch_tenant-Untouched target (client_for_node n) sub.node_tenant_id w).db

    pub switched_state :
        (update_subscription_status sub.id target after_node).0 ≡ ok tt
        → after_event.db ≡ rows_changed sub.id (replace_status target) w.db
    switched_state h =
        (emit_status_event-Queued changed target after_row).db
        ∙ db-update_subscription_status_ok sub.id after_node target h
        ∙ ap (rows_changed sub.id (replace_status target)) db-after_node

    pub switched_sent :
        (switch_tenant target (client_for_node n) sub.node_tenant_id w).0 ≡ ok tt
        → after_event.sent
          ≡ w.sent
            ++ record {
              at = w.tick;
              request = tenant_post (client_for_node n) sub.node_tenant_id (action_for target);
            }
              ∷ []
    switched_sent h =
        (emit_status_event-Queued changed target after_row).sent
        ∙ (update_subscription_status-Wrote sub.id after_node target).sent
        ∙ (switch_tenant-Delivered target (client_for_node n) sub.node_tenant_id w h).sent

    pub switched_queue : after_row.queue ≡ w.queue
    switched_queue =
        (update_subscription_status-Wrote sub.id after_node target).queue
        ∙ (switch_tenant-Untouched target (client_for_node n) sub.node_tenant_id w).queue

    pub switched-Announced : Announced changed target w after_event
    switched-Announced =
        let (t, told) = emit_status_event-Announced changed target after_row in
        (
          t,
          λ event body e m.
              told event body e m
              ∙ ap (enqueue (record { event = event; body = body })) switched_queue,
        )
