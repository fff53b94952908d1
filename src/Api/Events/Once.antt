-- ===== src/Api/Events/Once.antt =====
-- `emitUsageEvents` of internal/api/collector.go: one event for each level.
use node_panel.Prelude.{
  ℕ, String, true, false, some, ◌≤◌, ◌<◌, ◌≡◌, ◌⊎◌, inl, inr, refl, ap, ◌∙◌, arith, Bool-cases, leb,
  Option-cases, subst, find?, find-image, update, none, if◌then◌else◌,
}
use node_panel.Prelude.Int.{ℤ}
use node_panel.Domain.{Subscription}
use node_panel.Wire.{EventData}
use node_panel.Runtime.{Env, World, next}
use node_panel.Runtime.Exec.{Err, ok}
use node_panel.Store.Subscriptions.{
  update_subscription_notified, replace_notified, select_subscription, scan_subscription, has_id,
}
use node_panel.Schema.{Db, SubscriptionRow}
use node_panel.Store.Updates.{rows_changed, update_subscription_notified-Wrote}
use node_panel.Webhook.{emit, enqueue, event_usage_over_quota, event_usage_threshold}
use node_panel.Webhook.Queue.{emit-ok, emit-Queued, queue-emit, envelope}
use node_panel.Api.Threshold.{threshold_level}
use node_panel.Api.Events.{emit_usage_events, usage_event}

abbrev pub level_now : Subscription → ℤ → ℕ
level_now sub used = threshold_level used sub.quota_bytes

abbrev pub event_at : ℕ → String
event_at level = if leb 100 level then event_usage_over_quota else event_usage_threshold

scanned_level :
    (r : SubscriptionRow) (s : Subscription)
    → scan_subscription r ≡ ok s
    → s.notified_threshold ≡ r.notified_threshold
unfolding scan_subscription
scanned_level r s h = ground (arith, h)

module _ ⦃env : Env⦄ where
  -- The event of the level is offered to the channel, and the row gets the level, unless the driver
  -- fails at this very statement.
  abbrev pub Raised : Subscription → ℤ → World → World → Type 0
  Raised sub used w w' =
      ((body : String)
        → env.marshal_event
            (envelope (event_at (level_now sub used)) (usage_event sub used (level_now sub used)) w)
          ≡ some body
        → w'.queue
          ≡ enqueue (record { event = event_at (level_now sub used); body = body }) w.queue)
      × (((text : String) × (env.db_fault (next w).tick ≡ some text) × (w'.db ≡ w.db))
          ⊎ (w'.db ≡ rows_changed sub.id (replace_notified (level_now sub used)) w.db))

  written_or_not :
      (id : String) (n : ℕ) (w : World)
      → ((text : String) × (env.db_fault w.tick ≡ some text)
          × ((update_subscription_notified id n w).1.db ≡ w.db))
        ⊎ ((update_subscription_notified id n w).1.db ≡ rows_changed id (replace_notified n) w.db)
  unfolding update_subscription_notified
  written_or_not id n w = elim (Option-cases (env.db_fault w.tick)) [
    | inl e ↦ inr (ground (arith, e))
    | inr (text, e) ↦ inl (text, e, ground (arith, e))
  ]

  quiet_below :
      (sub : Subscription) (used : ℤ) (w : World)
      → leb (level_now sub used) sub.notified_threshold ≡ true
      → (emit_usage_events {E = Err} sub used w).1 ≡ w
  unfolding emit_usage_events
  quiet_below sub used w h = rw h refl

  tick-emit :
      (event : String) (content : EventData) (w : World)
      → (emit {E = Err} event content w).1.tick ≡ (next w).tick
  unfolding emit
  tick-emit event content w = ground arith

  Raised-above_level :
      (sub : Subscription) (used : ℤ) (w : World)
      → leb (level_now sub used) sub.notified_threshold ≡ false
      → Raised sub used w (emit_usage_events {E = Err} sub used w).1
  unfolding emit_usage_events
  Raised-above_level sub used w h =
      let event = event_at (level_now sub used) in
      let content = usage_event sub used (level_now sub used) in
      let w1 = (emit {E = Err} event content w).1 in
      let kept = (emit-Queued Err event content w).db in
      rw (h, emit-ok Err event content w)
        (
          λ body m.
              (update_subscription_notified-Wrote sub.id (level_now sub used) w1).queue
              ∙ queue-emit Err event content w body m,
          elim (written_or_not sub.id (level_now sub used) w1) [
            | inl (text, failed, e) ↦ inl (
              text,
              subst (λ t. env.db_fault t ≡ some text) (tick-emit event content w) failed,
              e ∙ kept,
            )
            | inr e ↦
                inr (e ∙ ap (rows_changed sub.id (replace_notified (level_now sub used))) kept)
          ],
        )

  -- What is read of a row whose level has been written has this level.
  read_back :
      (id : String) (n : ℕ) (db : Db) (s : Subscription)
      → select_subscription (has_id id) (rows_changed id (replace_notified n) db) ≡ ok s
      → s.notified_threshold ≡ n
  unfolding select_subscription
  read_back id n db s =
      elim (Option-cases
        (find? (has_id id) (update (has_id id) (replace_notified n) db.subscriptions))) [
          | inl e ↦ rw (select_subscription, e) (λ h. absurd (ground arith))
          | inr (r, e) ↦
              let (x, same) =
                find-image (has_id id) (replace_notified n) db.subscriptions (λ y. refl) r e in
              rw (select_subscription, e)
                (λ h. scanned_level r s h ∙ ap (λ r. r.notified_threshold) same)
        ]

  quiet_again :
      (sub s : Subscription) (used : ℤ) (w w2 : World)
      → env.db_fault (next w).tick ≡ none
      → sub.notified_threshold < level_now sub used
      → select_subscription (has_id sub.id) (emit_usage_events {E = Err} sub used w).1.db ≡ ok s
      → s.quota_bytes ≡ sub.quota_bytes
      → (emit_usage_events {E = Err} s used w2).1 ≡ w2
  quiet_again sub s used w w2 clear above read quota =
      let level = level_now sub used in
      let (queue, wrote) = Raised-above_level sub used w (ground (arith, above)) in
      elim wrote [
        | inl (text, failed, e) ↦ absurd (ground (arith, clear, failed))
        | inr e ↦
            let noted =
              read_back sub.id level w.db s
                (subst (λ db. select_subscription (has_id sub.id) db ≡ ok s) e read) in
            let same : level_now s used ≡ level = ap (threshold_level used) quota in
            quiet_below s used w2 (ground (arith, noted, same))
      ]

  -- Below or at the level that was notified last, nothing happens. Above it the event of the new
  -- level is offered and the new level is written to the row, unless the driver fails at this
  -- write; a call that finds this level in the row does nothing. So the same usage raises
  -- no second event once the row is read again with the same quota.
  pub emit_usage_events-Once :
      (sub : Subscription) (used : ℤ) (w : World)
      → (((level_now sub used ≤ sub.notified_threshold)
            × ((emit_usage_events {E = Err} sub used w).1 ≡ w))
          ⊎ ((sub.notified_threshold < level_now sub used)
              × Raised sub used w (emit_usage_events {E = Err} sub used w).1))
        × ((w2 : World)
            → (emit_usage_events {E = Err}
                (record sub { notified_threshold = level_now sub used })
                used
                w2).1
              ≡ w2)
        × ((s : Subscription) (w2 : World)
            → env.db_fault (next w).tick ≡ none
            → sub.notified_threshold < level_now sub used
            → select_subscription (has_id sub.id) (emit_usage_events {E = Err} sub used w).1.db
              ≡ ok s
            → s.quota_bytes ≡ sub.quota_bytes
            → (emit_usage_events {E = Err} s used w2).1 ≡ w2)
  emit_usage_events-Once sub used w = (
    elim (Bool-cases (leb (level_now sub used) sub.notified_threshold)) [
      | inl e ↦ inl (ground (arith, e), quiet_below sub used w e)
      | inr e ↦ inr (ground (arith, e), Raised-above_level sub used w e)
    ],
    λ w2.
        quiet_below (record sub { notified_threshold = level_now sub used }) used w2 (ground arith),
    λ s w2 clear above read quota. quiet_again sub s used w w2 clear above read quota,
  )
