-- ===== src/Webhook/Delivery.antt =====
-- `deliverWithRetry` of internal/webhook/dispatcher.go: the tries, what they post, and what the
-- returned attempt count and status say of them.
use node_panel.Prelude.{
  append_assoc, ℕ, zero, suc, ◌+◌, ◌≤◌, String, false, List, [], ◌∷◌, ◌++◌, ◌≡◌, ◌≢◌, inl, inr,
  refl, ap, sym, ◌∙◌, arith, ◌==◌, Bool-cases, eq_iff, All, length,
}
use node_panel.Domain.{WebhookEndpoint}
use node_panel.Wire.{Job, WebhookRequest, PostReply}
use node_panel.Runtime.{Env, World, next, log_posts}
use node_panel.Runtime.Exec.{Err, Result, ok}
use node_panel.Webhook.{
  deliver, deliver_from, deliver_with_retry, signed_request, status_of, post_reply, written_post,
}

module _ ⦃env : Env⦄ where
  -- What a try came to: the consumer's reply, or none when the URL does not parse.
  abbrev pub Reply : WebhookEndpoint → Job → PostReply → Type 0
  Reply ep j p = (t : ℕ) × (p ≡ post_reply t (signed_request ep j) (env.parse_url ep.url))

  abbrev pub posts_of : WebhookRequest → List PostReply → List WebhookRequest
  posts_of r [] = []
  posts_of r (p ∷ ps) = written_post r p ++ posts_of r ps

  -- Some tries that did not deliver and a last one.
  pub record Tried (left attempt : ℕ) (ep : WebhookEndpoint) (j : Job) (w w' : World)
      (status : String) (n : ℕ) : Type 0 where
    pub earlier : List PostReply
    pub last : PostReply
    pub within : length earlier ≤ left
    pub counted : n ≡ attempt + length earlier
    pub genuine : All (Reply ep j) earlier
    pub genuine_last : Reply ep j last
    pub undelivered : All (λ p. status_of p ≢ "delivered") earlier
    pub reported : status ≡ status_of last
    pub posts :
        w'.posted
        ≡ w.posted
          ++ (posts_of (signed_request ep j) earlier ++ written_post (signed_request ep j) last)
    pub db : w'.db ≡ w.db
    pub queue : w'.queue ≡ w.queue
    pub sent : w'.sent ≡ w.sent
    pub exhausted :
        status ≢ "delivered" → ((t : ℕ) → env.deadline_passed t ≡ false) → length earlier ≡ left

  abbrev pub TriedResult :
      ℕ → ℕ → WebhookEndpoint → Job → World → Result Err (String × ℕ) × World → Type 0
  TriedResult left attempt ep j w (r, w') =
      (status : String) × (n : ℕ) × (r ≡ ok (status, n)) × Tried left attempt ep j w w' status n

  module _ (ep : WebhookEndpoint) (j : Job) (w : World) where
    abbrev reply_now : PostReply
    reply_now = post_reply w.tick (signed_request ep j) (env.parse_url ep.url)

    abbrev after_try : World
    after_try = log_posts (written_post (signed_request ep j) reply_now) (next w)

    -- A try that is the last one.
    Tried-once :
        (left attempt : ℕ) (w' : World)
        → w'.posted ≡ after_try.posted
        → w'.db ≡ w.db
        → w'.queue ≡ w.queue
        → w'.sent ≡ w.sent
        → (status_of reply_now ≢ "delivered" → ((t : ℕ) → env.deadline_passed t ≡ false) → 0 ≡ left)
        → Tried left attempt ep j w w' (status_of reply_now) attempt
    Tried-once left attempt w' posts db queue sent exhausted = record {
      earlier = [];
      last = reply_now;
      within = omega arith;
      counted = omega arith;
      genuine = tt;
      genuine_last = (w.tick, refl);
      undelivered = tt;
      reported = refl;
      posts = posts;
      db = db;
      queue = queue;
      sent = sent;
      exhausted = exhausted;
    }

    -- A try that did not deliver, and more after it.
    Tried-again :
        (left attempt : ℕ) (w' : World) (status : String) (n : ℕ)
        → status_of reply_now ≢ "delivered"
        → Tried left (attempt + 1) ep j (next after_try) w' status n
        → Tried (suc left) attempt ep j w w' status n
    Tried-again left attempt w' status n failed t = record {
      earlier = reply_now ∷ t.earlier;
      last = t.last;
      within = omega (arith, t.within);
      counted = omega (arith, t.counted);
      genuine = ((w.tick, refl), t.genuine);
      genuine_last = t.genuine_last;
      undelivered = (failed, t.undelivered);
      reported = t.reported;
      posts =
          t.posts
          ∙ append_assoc w.posted (written_post (signed_request ep j) reply_now) _
          ∙ ap (λ l. w.posted ++ l)
              (sym (
                append_assoc (written_post (signed_request ep j) reply_now)
                  (posts_of (signed_request ep j) t.earlier)
                  (written_post (signed_request ep j) t.last)));
      db = t.db;
      queue = t.queue;
      sent = t.sent;
      exhausted = λ h never. ap suc (t.exhausted h never);
    }

  pub deliver_from-Tried :
      (left attempt : ℕ) (ep : WebhookEndpoint) (j : Job) (w : World)
      → TriedResult left attempt ep j w (deliver_from left attempt ep j w)
  unfolding deliver_from deliver
  deliver_from-Tried zero attempt ep j w =
      (_, _, refl, Tried-once ep j w 0 attempt (after_try ep j w) refl refl refl refl (λ h t. refl))
  deliver_from-Tried (suc left) attempt ep j w =
      let status = status_of (reply_now ep j w) in
      let w1 = after_try ep j w in
      elim (Bool-cases (status == "delivered")) [
        | inl e ↦ rw e (
          status,
          attempt,
          refl,
          Tried-once ep j w (suc left) attempt w1 refl refl refl refl
              (λ h t. absurd (h ((eq_iff status "delivered").0 e))),
        )
        | inr e ↦ rw e (elim (Bool-cases (env.deadline_passed w1.tick)) [
          | inl d ↦ rw d (
            status,
            attempt,
            refl,
            Tried-once ep j w (suc left) attempt (next w1) refl refl refl refl
                (λ h never. cc (d, never w1.tick)),
          )
          | inr d ↦ rw d (
              let (s, n, result, t) = deliver_from-Tried left (attempt + 1) ep j (next w1) in
              (
                s,
                n,
                result,
                Tried-again ep j w left attempt _ s n
                    (λ p. ground (arith, e, (eq_iff status "delivered").1 p)) t,
              ))
        ])
      ]

  -- A delivery makes one to three tries of the same signed request. A try posts it, unless the URL
  -- does not parse or the connection fails before the request is written; nothing else is posted.
  -- The returned count is the number of tries and the returned status that of the last; no earlier
  -- try delivered, and there are fewer than three only when the last one delivered or when the
  -- deadline has passed.
  pub deliver_with_retry-Tried :
      (ep : WebhookEndpoint) (j : Job) (w : World)
      → TriedResult 2 1 ep j w (deliver_with_retry ep j w)
  unfolding deliver_with_retry
  deliver_with_retry-Tried ep j w = deliver_from-Tried 2 1 ep j w
