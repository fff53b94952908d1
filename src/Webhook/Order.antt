-- ===== src/Webhook/Order.antt =====
-- The channel of internal/webhook/dispatcher.go over a run of the panel: `Emit` calls and rounds of
-- `run` in any order.
use node_panel.Prelude.{
  append_nil, append_assoc, subst, length-append, ◌≤◌, ◌<◌, String, List, some, [], ◌∷◌, ◌++◌, ◌≡◌,
  ◌⊎◌, inl, inr, refl, ap, sym, ◌∙◌, arith, ◌==◌, length, select,
}
use node_panel.Domain.{WebhookEndpoint}
use node_panel.Schema.{Db}
use node_panel.Wire.{Job, WebhookRequest, EventData}
use node_panel.Runtime.{Env, World, next}
use node_panel.Runtime.Exec.{Err, ok, err, Result-cases}
use node_panel.Store.Webhooks.{list_active_webhooks}
use node_panel.Webhook.{emit, queue_depth, dispatch, run_one}
use node_panel.Webhook.Queue.{envelope, queue-emit, enqueue_cases}
use node_panel.Webhook.Rounds.{Served, deliver_all-Served}

abbrev pub active_endpoints : Db → List WebhookEndpoint
active_endpoints db = select (λ h. h.status == "active") db.webhook_endpoints

module _ ⦃env : Env⦄ where
  pub next-list_active_webhooks : (w : World) → (list_active_webhooks w).1 ≡ next w
  unfolding list_active_webhooks
  next-list_active_webhooks w = ground arith

  list_active_webhooks-ok :
      (w : World) {eps : List WebhookEndpoint}
      → (list_active_webhooks w).0 ≡ ok eps
      → eps ≡ active_endpoints w.db
  unfolding list_active_webhooks
  list_active_webhooks-ok w h = ground arith

  -- A job is served to all active endpoints, or to none because they could not be listed.
  abbrev pub Dispatched : Job → World → World → Type 0
  Dispatched j w w' =
      (w'.queue ≡ w.queue)
      × (((e : Err) × ((list_active_webhooks w).0 ≡ err e) × (w' ≡ next w))
          ⊎ ((posts : List WebhookRequest) × ((list_active_webhooks w).0
                ≡ ok (active_endpoints w.db))
              × Served j (active_endpoints w.db) posts
              × (w'.posted ≡ w.posted ++ posts)))

  dispatch-Dispatched : (j : Job) (w : World) → Dispatched j w (dispatch {E = Err} j w).1
  unfolding dispatch
  dispatch-Dispatched j w = elim (Result-cases (list_active_webhooks w).0) [
    | inr (e, h) ↦ rw (h, next-list_active_webhooks w) (refl, inl (e, refl, refl))
    | inl (eps, h) ↦
        rw (h, next-list_active_webhooks w)
          (let (done, (posts, served, posted, quiet)) = deliver_all-Served eps j (next w) in
            (
              quiet.queue,
              inr (
                posts,
                ap ok (list_active_webhooks-ok w h),
                subst (λ l. Served j l posts) (list_active_webhooks-ok w h) served,
                posted,
              ),
            ))
  ]

  -- A round of the worker takes the oldest job off the channel; either the listing of the active
  -- endpoints fails and nothing is posted, or the job is tried at every active endpoint that
  -- subscribed to its event, in order, and at no other.
  pub run_one-Dispatched :
      (j : Job) (q : List Job) (w : World)
      → w.queue ≡ j ∷ q
      → Dispatched j (record w { queue = q }) (run_one w)
  unfolding run_one
  run_one-Dispatched j q w h = rw h (dispatch-Dispatched j (record w { queue = q }))

  -- The runs of the panel, seen from the channel: the jobs that were accepted and those that were
  -- taken off since the start, both oldest first. Any other step leaves the channel alone.
  pub data Run (w : World) : List Job → List Job → World → Type 0 where
    started : Run w [] [] w
    accepted :
        (event body : String) (content : EventData) (ins outs : List Job) (w1 : World)
        → Run w ins outs w1
        → length w1.queue < queue_depth
        → env.marshal_event (envelope event content w1) ≡ some body
        → Run w
            (ins ++ record { event = event; body = body } ∷ [])
            outs
            (emit {E = Err} event content w1).1
    dropped :
        (event body : String) (content : EventData) (ins outs : List Job) (w1 : World)
        → Run w ins outs w1
        → queue_depth ≤ length w1.queue
        → env.marshal_event (envelope event content w1) ≡ some body
        → Run w ins outs (emit {E = Err} event content w1).1
    worked :
        (j : Job) (q ins outs : List Job) (w1 : World)
        → Run w ins outs w1
        → w1.queue ≡ j ∷ q
        → Run w ins (outs ++ j ∷ []) (run_one w1)
    elsewhere :
        (ins outs : List Job) (w1 w2 : World)
        → Run w ins outs w1
        → w2.queue ≡ w1.queue
        → Run w ins outs w2

  queue_accepted :
      (event body : String) (content : EventData) (w : World)
      → length w.queue < queue_depth
      → env.marshal_event (envelope event content w) ≡ some body
      → (emit {E = Err} event content w).1.queue
        ≡ w.queue ++ record { event = event; body = body } ∷ []
  queue_accepted event body content w room m =
      queue-emit Err event content w body m
      ∙ ground (arith, room, enqueue_cases (record { event = event; body = body }) w.queue)

  queue_dropped :
      (event body : String) (content : EventData) (w : World)
      → queue_depth ≤ length w.queue
      → env.marshal_event (envelope event content w) ≡ some body
      → (emit {E = Err} event content w).1.queue ≡ w.queue
  queue_dropped event body content w full m =
      queue-emit Err event content w body m
      ∙ ground (arith, full, enqueue_cases (record { event = event; body = body }) w.queue)

  -- In every run the accepted jobs leave the channel in the order in which they came, none is
  -- lost or repeated, and the channel never holds more than 512.
  pub Run-in_order :
      (w : World)
      → length w.queue ≤ queue_depth
      → (ins outs : List Job) (w' : World) → Run w ins outs w'
      → (w.queue ++ ins ≡ outs ++ w'.queue) × (length w'.queue ≤ queue_depth)
  Run-in_order w h _ _ _ started = (append_nil w.queue, h)
  Run-in_order w h _ _ _ (accepted event body content ins outs w1 run room m) =
      let (order, bound) = Run-in_order w h ins outs w1 run in
      let job : Job = record { event = event; body = body } in
      let new_queue = queue_accepted event body content w1 room m in
      (
        sym (append_assoc w.queue ins (job ∷ []))
            ∙ ap (λ l. l ++ job ∷ []) order
            ∙ append_assoc outs w1.queue (job ∷ [])
            ∙ ap (λ l. outs ++ l) (sym new_queue),
        omega (arith, room, ap length new_queue, length-append w1.queue (job ∷ [])),
      )
  Run-in_order w h _ _ _ (dropped event body content ins outs w1 run full m) =
      let (order, bound) = Run-in_order w h ins outs w1 run in
      let same = queue_dropped event body content w1 full m in
      (order ∙ ap (λ l. outs ++ l) (sym same), omega (arith, bound, ap length same))
  Run-in_order w h _ _ _ (worked j q ins outs w1 run taken) =
      let (order, bound) = Run-in_order w h ins outs w1 run in
      let rest = (run_one-Dispatched j q w1 taken).0 in
      (
        order
            ∙ ap (λ l. outs ++ l) taken
            ∙ sym (append_assoc outs (j ∷ []) q)
            ∙ ap (λ l. (outs ++ j ∷ []) ++ l) (sym rest),
        omega (arith, bound, ap length taken, ap length rest),
      )
  Run-in_order w h _ _ _ (elsewhere ins outs w1 w2 run same) =
      let (order, bound) = Run-in_order w h ins outs w1 run in
      (order ∙ ap (λ l. outs ++ l) (sym same), omega (arith, bound, ap length same))
