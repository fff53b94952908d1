-- ===== src/Webhook.antt =====
-- internal/webhook/dispatcher.go. The channel is `World.queue`; `emit` runs in the caller and
-- `run_one` is one round of the worker, which may run between any two steps of the callers.
pub mod Filter
pub mod Queue
pub mod Delivery
pub mod Rounds
pub mod Drained
pub mod Order
use node_panel.Prelude.{
  ℕ, zero, suc, ◌+◌, ◌-◌, String, Option, none, some, List, [], ◌∷◌, ◌++◌, true, ◌&&◌, ◌||◌, ◌==◌,
  length, leb, ltb, if◌then◌else◌,
}
use node_panel.Prelude.Text.{decimal, ◌<>◌}
use node_panel.Domain.{WebhookEndpoint}
use node_panel.Wire.{
  EventData, Envelope, Job, WebhookRequest, PostReply, not_sent, unanswered, answered, Url,
}
use node_panel.Runtime.{Env, World, next, log_posts}
use node_panel.Runtime.Exec.{
  Err, Result, ok, err, Exec, unix_now, ◌>>=◌, ◌>>◌, return, attempt, ignore,
}
use node_panel.Store.Webhooks.{list_active_webhooks, record_webhook_delivery}
use Filter.{subscribed}

abbrev pub event_usage_threshold : String
event_usage_threshold = "usage.threshold"

abbrev pub event_usage_over_quota : String
event_usage_over_quota = "usage.over_quota"

abbrev pub event_suspended : String
event_suspended = "subscription.suspended"

abbrev pub event_resumed : String
event_resumed = "subscription.resumed"

abbrev pub event_expired : String
event_expired = "subscription.expired"

abbrev pub queue_depth : ℕ
queue_depth = 512

abbrev pub max_attempts : ℕ
max_attempts = 3

-- The send on the channel: the `default` of the `select` drops the new event.
unfoldable pub enqueue : Job → List Job → List Job
enqueue j q = if ltb (length q) queue_depth then q ++ j ∷ [] else q

module _ ⦃env : Env⦄ where
  abbrev pub push : String → Option String → World → World
  push event none w = w
  push event (some body) w = record w {
    queue = enqueue (record { event = event; body = body }) w.queue;
    worker = true;
  }

  unfoldable pub emit : {E : Type 0} → String → EventData → Exec E (Unit {0})
  unfolding enqueue
  emit event content = do
    now ← unix_now
    λ w. (
      ok tt,
      push event (env.marshal_event (record { kind = event; timestamp = now; content = content }))
          w,
    )

  abbrev pub signed_request : WebhookEndpoint → Job → WebhookRequest
  signed_request ep j = record {
    url = ep.url;
    event = j.event;
    signature = "sha256=" <> env.hmac_hex ep.secret j.body;
    body = j.body;
  }

  abbrev pub status_of : PostReply → String
  status_of (not_sent e) = "failed"
  status_of (unanswered e) = "failed"
  status_of (answered code) =
      if leb 200 code && ltb code 300 then "delivered" else "failed_" <> decimal code

  -- `http.NewRequest` refuses a URL that does not parse; then nothing is sent.
  abbrev pub post_reply : ℕ → WebhookRequest → Option Url → PostReply
  post_reply t r none = not_sent "parse"
  post_reply t r (some u) = env.post_webhook t r

  -- what of the request has gone out
  abbrev pub written_post : WebhookRequest → PostReply → List WebhookRequest
  written_post r (not_sent e) = []
  written_post r (unanswered e) = r ∷ []
  written_post r (answered code) = r ∷ []

  unfoldable pub deliver : {E : Type 0} → WebhookEndpoint → Job → Exec E String
  deliver ep j w =
      let reply = post_reply w.tick (signed_request ep j) (env.parse_url ep.url) in
      (ok (status_of reply), log_posts (written_post (signed_request ep j) reply) (next w))

  -- The loop of `deliverWithRetry` from the given attempt on, with the attempts that are left
  -- after it; `deadline_passed` is the choice of the `select` between the back-off and the
  -- context's end.
  unfoldable pub deliver_from : {E : Type 0} → ℕ → ℕ → WebhookEndpoint → Job → Exec E (String × ℕ)
  deliver_from zero attempt ep j = do status ← deliver ep j; return (status, attempt)
  deliver_from (suc left) attempt ep j =
      let again = deliver_from left (attempt + 1) ep j in
      do
        status ← deliver ep j
        if status == "delivered" then return (status, attempt) else λ w.
            if env.deadline_passed w.tick then (ok (status, attempt), next w) else again (next w)

  unfoldable pub deliver_with_retry : {E : Type 0} → WebhookEndpoint → Job → Exec E (String × ℕ)
  unfolding deliver_from
  deliver_with_retry ep j = deliver_from (max_attempts - 1) 1 ep j

  -- the loop of `dispatch`
  unfoldable pub deliver_all : {E : Type 0} → List WebhookEndpoint → Job → Exec E (Unit {0})
  deliver_all [] j = return tt
  deliver_all (ep ∷ eps) j =
      let rest = deliver_all eps j in
      if subscribed ep.events j.event
      then (do
        (status, attempts) ← deliver_with_retry ep j
        ignore (record_webhook_delivery ep.id j.event j.body status attempts)
        rest)
      else rest

  abbrev pub deliver_listed :
      {E : Type 0} → Job → Result Err (List WebhookEndpoint) → Exec E (Unit {0})
  deliver_listed j (ok endpoints) = deliver_all endpoints j
  deliver_listed j (err e) = return tt

  unfoldable pub dispatch : {E : Type 0} → Job → Exec E (Unit {0})
  dispatch j = do endpoints ← attempt list_active_webhooks; deliver_listed j endpoints

  abbrev pub take : List Job → World → World
  take [] w = w
  take (j ∷ q) w = (dispatch {E = Err} j (record w { queue = q })).1

  -- one round of `run`; an empty queue blocks
  unfoldable pub run_one : World → World
  run_one w = take w.queue w
