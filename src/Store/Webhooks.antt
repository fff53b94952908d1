-- ===== src/Store/Webhooks.antt =====
-- internal/store/webhooks.go
use node_panel.Prelude.{ℕ, String, some, List, [], ◌∷◌, ◌++◌, ◌==◌, any, select, if◌then◌else◌}
use node_panel.Prelude.Text.{is_empty, text_before}
use node_panel.Domain.{WebhookEndpoint}
use node_panel.Schema.{Db, WebhookDelivery}
use node_panel.Runtime.{Env}
use node_panel.Runtime.Exec.{
  Err, failure, Result, ok, err, Exec, statement, new_uuid, unix_now, ◌>>=◌, ◌>>◌, return,
}
use node_panel.Store.Table.{references, checked, unique, foreign_key, query}

unfoldable pub insert_webhook : WebhookEndpoint → Db → Result Err (Unit {0} × Db)
insert_webhook h db =
    if any (λ r. r.id == h.id) db.webhook_endpoints
    then err (failure unique)
    else ok (tt, record db { webhook_endpoints = db.webhook_endpoints ++ h ∷ [] })

unfoldable pub insert_delivery : WebhookDelivery → Db → Result Err (Unit {0} × Db)
insert_delivery d db =
    if any (λ r. r.id == d.id) db.webhook_deliveries
    then err (failure unique)
    else if checked db (references (λ e. e.id) db.webhook_endpoints (some d.endpoint_id))
    then ok (tt, record db { webhook_deliveries = db.webhook_deliveries ++ d ∷ [] })
    else err (failure foreign_key)

abbrev place : WebhookEndpoint → List WebhookEndpoint → List WebhookEndpoint
place h [] = h ∷ []
place h (k ∷ ks) = let rest = place h ks in if text_before k.id h.id then k ∷ rest else h ∷ (k ∷ ks)

-- ORDER BY id
unfoldable pub by_id : List WebhookEndpoint → List WebhookEndpoint
by_id [] = []
by_id (h ∷ hs) = place h (by_id hs)

module _ ⦃env : Env⦄ where
  unfoldable pub create_webhook : String → String → String → Exec Err WebhookEndpoint
  unfolding insert_webhook
  create_webhook url secret events = do
    id ← new_uuid
    let h : WebhookEndpoint = record {
      id = id;
      url = url;
      secret = secret;
      events = if is_empty events then "*" else events;
      status = "active";
    }
    statement (insert_webhook h)
    return h

  unfoldable pub list_webhooks : Exec Err (List WebhookEndpoint)
  list_webhooks = query (λ db. ok (by_id db.webhook_endpoints))

  unfoldable pub list_active_webhooks : Exec Err (List WebhookEndpoint)
  list_active_webhooks = query (λ db. ok (select (λ h. h.status == "active") db.webhook_endpoints))

  unfoldable pub record_webhook_delivery :
      String → String → String → String → ℕ → Exec Err (Unit {0})
  unfolding insert_delivery
  record_webhook_delivery endpoint_id event payload status attempts = do
    id ← new_uuid
    now ← unix_now
    let d : WebhookDelivery = record {
      id = id;
      endpoint_id = endpoint_id;
      event = event;
      payload = payload;
      status = status;
      attempts = attempts;
      ts = now;
    }
    statement (insert_delivery d)
