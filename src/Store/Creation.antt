-- ===== src/Store/Creation.antt =====
-- What `CreateSubscription`, `CreateAPIKey` and `DeleteSubscription` of internal/store do to the
-- tables when they are called one after the other.
use node_panel.Prelude.{
  String, false, [], ◌∷◌, ◌++◌, ◌≡◌, refl, arith, any, eqb, if◌then◌else◌, ◌⊎◌, true,
}
use node_panel.Prelude.Int.{pos, eqb_ℤ}
use node_panel.Prelude.Text.{is_empty}
use node_panel.Domain.{Subscription}
use node_panel.Schema.{Db, ApiKeyRow}
use node_panel.Runtime.{Env, World, next}
use node_panel.Runtime.Exec.{Err, ok, err}
use node_panel.Store.Subscriptions.{create_subscription, create_api_key, new_row, has_id}
use node_panel.Store.Effects.{Wrote}

-- The stored subscription is the given one, but for the fields that the store fills in.
pub record SameTerms (s t : Subscription) : Type 0 where
  pub customer_id : t.customer_id ≡ s.customer_id
  pub plan_id : t.plan_id ≡ s.plan_id
  pub node_id : t.node_id ≡ s.node_id
  pub node_tenant_id : t.node_tenant_id ≡ s.node_tenant_id
  pub api_key : t.api_key ≡ s.api_key
  pub quota_bytes : t.quota_bytes ≡ s.quota_bytes
  pub end_at : t.end_at ≡ s.end_at
  pub start_at : t.start_at ≡ s.start_at
  pub credit_limit_bytes : t.credit_limit_bytes ≡ s.credit_limit_bytes
  pub used_bytes : t.used_bytes ≡ s.used_bytes
  pub notified_threshold : t.notified_threshold ≡ s.notified_threshold
  pub period_id : t.period_id ≡ (if eqb s.period_id 0 then 1 else s.period_id)
  pub status : t.status ≡ (if is_empty s.status then "active" else s.status)
  pub id : (is_empty s.id ≡ true) ⊎ (t.id ≡ s.id)
  pub sub_token : (is_empty s.sub_token ≡ true) ⊎ (t.sub_token ≡ s.sub_token)
  pub created_at : (eqb_ℤ s.created_at (pos 0) ≡ true) ⊎ (t.created_at ≡ s.created_at)

abbrev pub add_row : Subscription → Db → Db
add_row s db = record db { subscriptions = db.subscriptions ++ new_row s ∷ [] }

module _ ⦃env : Env⦄ where
  pub create_subscription-Wrote :
      (s : Subscription) (w : World) → Wrote w (create_subscription s w).1
  unfolding create_subscription
  create_subscription-Wrote s w = ground arith

  pub db-create_subscription_err :
      (s : Subscription) (w : World) {e : Err}
      → (create_subscription s w).0 ≡ err e
      → (create_subscription s w).1.db ≡ w.db
  unfolding create_subscription
  db-create_subscription_err s w h = ground arith

  pub db-create_subscription_ok :
      (s : Subscription) (w : World) {t : Subscription}
      → (create_subscription s w).0 ≡ ok t
      → ((create_subscription s w).1.db ≡ add_row t w.db)
        × (any (has_id t.id) w.db.subscriptions ≡ false)
        × SameTerms s t
  unfolding create_subscription
  db-create_subscription_ok s w h = ground arith

  pub create_api_key-Wrote : (c h p : String) (w : World) → Wrote w (create_api_key c h p w).1
  unfolding create_api_key
  create_api_key-Wrote c h p w = ground arith

  pub db-create_api_key_err :
      (c h p : String) (w : World) {e : Err}
      → (create_api_key c h p w).0 ≡ err e
      → (create_api_key c h p w).1.db ≡ w.db
  unfolding create_api_key
  db-create_api_key_err c h p w k = ground arith

  -- The key of a call that succeeded is in the table, under the hash and the prefix given.
  pub db-create_api_key_ok :
      (c h p : String) (w : World)
      → (create_api_key c h p w).0 ≡ ok tt
      → (k : ApiKeyRow) × ((create_api_key c h p w).1.db
          ≡ record w.db { api_keys = w.db.api_keys ++ k ∷ [] })
        × (k.customer_id ≡ c)
        × (k.key_hash ≡ h)
        × (k.status ≡ "active")
  unfolding create_api_key
  db-create_api_key_ok c h p w k = (
    record {
      id = env.uuid w.tick;
      customer_id = c;
      key_hash = h;
      prefix = p;
      status = "active";
      created_at = env.clock (next w).tick;
    },
    ground arith,
    refl,
    refl,
    refl,
  )
