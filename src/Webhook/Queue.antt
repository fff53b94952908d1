-- ===== src/Webhook/Queue.antt =====
-- The dispatcher's channel: what `Emit` of internal/webhook/dispatcher.go does to it.
use node_panel.Prelude.{
  String, some, List, [], ◌∷◌, ◌++◌, ◌≡◌, ◌≤◌, ◌<◌, ◌⊎◌, refl, arith, length, length-append,
}
use node_panel.Wire.{EventData, Envelope, Job}
use node_panel.Runtime.{Env, World}
use node_panel.Runtime.Exec.{ok}
use node_panel.Webhook.{enqueue, emit, queue_depth}

-- A channel that is not full takes the event at its end; a full one stays as it is.
pub enqueue_cases :
    (j : Job) (q : List Job)
    → ((length q < queue_depth) × (enqueue j q ≡ q ++ j ∷ []))
      ⊎ ((queue_depth ≤ length q) × (enqueue j q ≡ q))
unfolding enqueue
enqueue_cases j q = ground arith

pub length-enqueue :
    (j : Job) (q : List Job) → length q ≤ queue_depth → length (enqueue j q) ≤ queue_depth
unfolding enqueue
length-enqueue j q h = ground (arith, length-append q (j ∷ []))

module _ ⦃env : Env⦄ where
  -- Only the channel, the worker's flag and the ticks may differ.
  pub record Queued (w w' : World) : Type 0 where
    pub db : w'.db ≡ w.db
    pub sent : w'.sent ≡ w.sent
    pub posted : w'.posted ≡ w.posted

  -- the event, rendered at the time of the call
  abbrev pub envelope : String → EventData → World → Envelope
  envelope event content w = record {
    kind = event;
    timestamp = env.clock w.tick;
    content = content;
  }

  module _ (E : Type 0) (event : String) (content : EventData) (w : World) where
    pub emit-ok : (emit {E = E} event content w).0 ≡ ok tt
    unfolding emit
    emit-ok = refl

    pub emit-Queued : Queued w (emit {E = E} event content w).1
    unfolding emit
    emit-Queued = ground arith

    -- An event that can be rendered goes through the channel's own test.
    pub queue-emit :
        (body : String)
        → env.marshal_event (envelope event content w) ≡ some body
        → (emit {E = E} event content w).1.queue
          ≡ enqueue (record { event = event; body = body }) w.queue
    unfolding emit
    queue-emit body h = ground arith
