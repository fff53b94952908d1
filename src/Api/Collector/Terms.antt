-- ===== src/Api/Collector/Terms.antt =====
-- What the steps of the usage collector of internal/api/collector.go leave alone.
use node_panel.Prelude.{
  ℕ, String, map, map-update, ◌≡◌, inl, inr, refl, ap, ◌∙◌, arith, Bool-cases, Option-cases, leb,
}
use node_panel.Prelude.Int.{ℤ, pos}
use node_panel.Domain.{Subscription}
use node_panel.Schema.{SubscriptionRow}
use node_panel.Runtime.{Env, World}
use node_panel.Runtime.Exec.{Err, ok, Exec}
use node_panel.Store.Subscriptions.{
  has_id, update_subscription_usage, update_subscription_status, update_subscription_notified,
  replace_usage, replace_status, replace_notified,
}
use node_panel.Store.History.{record_usage}
use node_panel.Webhook.{emit}
use node_panel.Webhook.Queue.{emit-ok, emit-Queued}
use node_panel.NodeClient.{Client, tenant_usage}
use node_panel.Api.Events.{
  emit_usage_events, emit_status_event, status_event, status_content, usage_event,
}
use node_panel.Api.Events.Once.{event_at, level_now}

-- a row without what the collector reflects from the node
abbrev pub terms_of : SubscriptionRow → SubscriptionRow
terms_of r = record r { used_bytes = pos 0; status = ""; notified_threshold = 0 }

-- Every subscription is there as before, on the same terms, and so are customers, plans, nodes,
-- keys and endpoints.
pub record SameTerms (w w' : World) : Type 0 where
  pub terms : map terms_of w'.db.subscriptions ≡ map terms_of w.db.subscriptions
  pub customers : w'.db.customers ≡ w.db.customers
  pub plans : w'.db.plans ≡ w.db.plans
  pub nodes : w'.db.nodes ≡ w.db.nodes
  pub api_keys : w'.db.api_keys ≡ w.db.api_keys
  pub endpoints : w'.db.webhook_endpoints ≡ w.db.webhook_endpoints

pub SameTerms-trans : {w w1 w2 : World} → SameTerms w w1 → SameTerms w1 w2 → SameTerms w w2
SameTerms-trans a b = record {
  terms = b.terms ∙ a.terms;
  customers = b.customers ∙ a.customers;
  plans = b.plans ∙ a.plans;
  nodes = b.nodes ∙ a.nodes;
  api_keys = b.api_keys ∙ a.api_keys;
  endpoints = b.endpoints ∙ a.endpoints;
}

pub same_db : {w w' : World} → w'.db ≡ w.db → SameTerms w w'
same_db h = record {
  terms = ap (λ d. map terms_of d.subscriptions) h;
  customers = ap (λ d. d.customers) h;
  plans = ap (λ d. d.plans) h;
  nodes = ap (λ d. d.nodes) h;
  api_keys = ap (λ d. d.api_keys) h;
  endpoints = ap (λ d. d.webhook_endpoints) h;
}

module _ ⦃env : Env⦄ where
  -- The call succeeds and leaves the terms alone.
  abbrev pub Harmless : Exec Err (Unit {0}) → World → Type 0
  Harmless m w = ((m w).0 ≡ ok tt) × SameTerms w (m w).1

  pub usage_lem :
      (id : String) (u : ℤ) (w : World) → SameTerms w (update_subscription_usage id u w).1
  unfolding update_subscription_usage
  usage_lem id u w =
      ground
        (arith, map-update (has_id id) (replace_usage u) terms_of w.db.subscriptions (λ r. refl))

  pub status_lem : (id s : String) (w : World) → SameTerms w (update_subscription_status id s w).1
  unfolding update_subscription_status
  status_lem id s w =
      ground
        (arith, map-update (has_id id) (replace_status s) terms_of w.db.subscriptions (λ r. refl))

  pub notified_lem :
      (id : String) (n : ℕ) (w : World) → SameTerms w (update_subscription_notified id n w).1
  unfolding update_subscription_notified
  notified_lem id n w =
      ground
        (arith, map-update (has_id id) (replace_notified n) terms_of w.db.subscriptions (λ r. refl))

  pub record_lem :
      (t n : String) (p : ℕ) (u : ℤ) (w : World) → SameTerms w (record_usage t n p u w).1
  unfolding record_usage
  record_lem t n p u w = ground arith

  pub tenant_usage_lem : (c : Client) (t : String) (w : World) → SameTerms w (tenant_usage c t w).1
  unfolding tenant_usage
  tenant_usage_lem c t w = ground arith

  pub usage_events_lem :
      (sub : Subscription) (used : ℤ) (w : World) → Harmless (emit_usage_events sub used) w
  unfolding emit_usage_events
  usage_events_lem sub used w =
      elim (Bool-cases (leb (level_now sub used) sub.notified_threshold)) [
        | inl e ↦ rw e (refl, same_db refl)
        | inr e ↦
            let event = event_at (level_now sub used) in
            let content = usage_event sub used (level_now sub used) in
            rw (e, emit-ok Err event content w)
              (
                refl,
                SameTerms-trans (same_db (emit-Queued Err event content w).db)
                    (notified_lem sub.id (level_now sub used) (emit {E = Err} event content w).1),
              )
      ]

  pub status_event_lem :
      (sub : Subscription) (s : String) (w : World) → Harmless (emit_status_event sub s) w
  unfolding emit_status_event
  status_event_lem sub s w = elim (Option-cases (status_event s)) [
    | inl e ↦ rw e (refl, same_db refl)
    | inr (event, e) ↦ rw e (
      emit-ok Err event (status_content sub s) w,
      same_db (emit-Queued Err event (status_content sub s) w).db,
    )
  ]
