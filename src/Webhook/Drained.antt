-- ===== src/Webhook/Drained.antt =====
-- internal/webhook/dispatcher.go: rounds of the worker until the channel is empty.
use node_panel.Prelude.{
  ℕ, zero, suc, List, [], ◌∷◌, ◌++◌, ◌≡◌, refl, ap, sym, ◌∙◌, subst, arith, append_nil,
  append_assoc, length, select, ◌==◌,
}
use node_panel.Domain.{WebhookEndpoint}
use node_panel.Wire.{Job, WebhookRequest}
use node_panel.Runtime.{Env, World, next}
use node_panel.Runtime.Exec.{Err, ok}
use node_panel.Store.Webhooks.{list_active_webhooks}
use node_panel.Runtime.Exec.Ends.{Answers}
use node_panel.Webhook.{run_one, dispatch}
use node_panel.Webhook.Order.{active_endpoints, next-list_active_webhooks}
use node_panel.Webhook.Rounds.{Served, ServedResult, deliver_all-Served}

module _ ⦃env : Env⦄ where
  -- The posts of several jobs, one job after the other.
  pub data ServedAll (eps : List WebhookEndpoint) : List Job → List WebhookRequest → Type 0 where
    none_left : ServedAll eps [] []
    one_more :
        (j : Job) (js : List Job) (posts more : List WebhookRequest)
        → Served j eps posts
        → ServedAll eps js more
        → ServedAll eps (j ∷ js) (posts ++ more)

  abbrev pub rounds : ℕ → World → World
  rounds zero w = w
  rounds (suc n) w = rounds n (run_one w)

  list_active_webhooks-Answers :
      (w : World) → Answers → (list_active_webhooks w).0 ≡ ok (active_endpoints w.db)
  unfolding list_active_webhooks
  list_active_webhooks-Answers w a = ground (arith, a.clear w.tick)

  dispatch-ServedResult :
      (j : Job) (w : World)
      → Answers
      → ServedResult j (active_endpoints w.db) w (dispatch {E = Err} j w).1
  unfolding dispatch
  dispatch-ServedResult j w a =
      rw (list_active_webhooks-Answers w a, next-list_active_webhooks w)
        (let (posts, served, posted, quiet) =
            (deliver_all-Served (active_endpoints w.db) j (next w)).1 in
          (
            posts,
            served,
            posted,
            record { queue = quiet.queue; sent = quiet.sent; endpoints = quiet.endpoints },
          ))

  run_one-ServedResult :
      (j : Job) (q : List Job) (w : World)
      → Answers
      → w.queue ≡ j ∷ q
      → ServedResult j (active_endpoints w.db) (record w { queue = q }) (run_one w)
  unfolding run_one
  run_one-ServedResult j q w a h = rw h (dispatch-ServedResult j (record w { queue = q }) a)

  abbrev Drained : List Job → World → World → Type 0
  Drained js w w' =
      (w'.queue ≡ [])
      × (w'.sent ≡ w.sent)
      × ((posts : List WebhookRequest) × ServedAll (active_endpoints w.db) js posts
          × (w'.posted ≡ w.posted ++ posts))

  rounds-Drained_from :
      (q : List Job) (w : World) → Answers → w.queue ≡ q → Drained q w (rounds (length q) w)
  rounds-Drained_from [] w a h = (h, refl, ([], none_left, sym (append_nil w.posted)))
  rounds-Drained_from (j ∷ q) w a h =
      let (posts, served, posted, quiet) = run_one-ServedResult j q w a h in
      let (empty, sent, (more, rest, posted_more)) =
        rounds-Drained_from q (run_one w) a quiet.queue in
      (
        empty,
        sent ∙ quiet.sent,
        (
          posts ++ more,
          one_more j q posts more served (
              subst (λ eps. ServedAll (select (λ h. h.status == "active") eps) q more)
                quiet.endpoints rest),
          posted_more ∙ ap (λ l. l ++ more) posted ∙ append_assoc w.posted posts more,
        ),
      )

  -- While the database answers and nothing new is emitted, as many rounds of the worker as the
  -- channel holds jobs empty it: every job is tried one to three times at each active endpoint
  -- that subscribed to its event, in order, and what these tries write is all that is posted. A try
  -- writes the signed request unless the URL does not parse or the connection fails before.
  pub rounds-Drained :
      (w : World)
      → Answers
      → ((rounds (length w.queue) w).queue ≡ [])
        × ((rounds (length w.queue) w).sent ≡ w.sent)
        × ((posts : List WebhookRequest) × ServedAll (active_endpoints w.db) w.queue posts
            × ((rounds (length w.queue) w).posted ≡ w.posted ++ posts))
  rounds-Drained w a = rounds-Drained_from w.queue w a refl
