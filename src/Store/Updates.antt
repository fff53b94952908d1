-- ===== src/Store/Updates.antt =====
-- What the UPDATE statements of internal/store/subscriptions.go and mutations.go do to the state.
use node_panel.Prelude.{ℕ, String, Bool, none, List, [], ◌∷◌, ◌≡◌, refl, arith, update, count}
use node_panel.Prelude.Int.{ℤ}
use node_panel.Schema.{Db, SubscriptionRow}
use node_panel.Runtime.{Env, World}
use node_panel.Runtime.Exec.{Err, ok, err}
use node_panel.Store.Subscriptions.{
  has_id, update_subscription_status, update_subscription_notified, renew_subscription,
  replace_status, replace_notified, renewed,
}
use node_panel.Store.Effects.{Wrote}

abbrev pub rows_changed : String → (SubscriptionRow → SubscriptionRow) → Db → Db
rows_changed id f db = record db { subscriptions = update (has_id id) f db.subscriptions }

-- Where no row passes the test, changing those that do changes nothing.
update-of_count :
    (p : SubscriptionRow → Bool) (f : SubscriptionRow → SubscriptionRow) (xs : List SubscriptionRow)
    → count p xs ≡ 0
    → update p f xs ≡ xs
update-of_count p f [] h = refl
update-of_count p f (x ∷ xs) h = ground (arith, update-of_count p f xs)

module _ ⦃env : Env⦄ where
  module _ (id : String) (w : World) where
    pub update_subscription_status-Wrote :
        (s : String) → Wrote w (update_subscription_status id s w).1
    unfolding update_subscription_status
    update_subscription_status-Wrote s = ground arith

    pub db-update_subscription_status_ok :
        (s : String)
        → (update_subscription_status id s w).0 ≡ ok tt
        → (update_subscription_status id s w).1.db ≡ rows_changed id (replace_status s) w.db
    unfolding update_subscription_status
    db-update_subscription_status_ok s h = ground arith

    pub db-update_subscription_status_err :
        (s : String) {e : Err}
        → (update_subscription_status id s w).0 ≡ err e
        → (update_subscription_status id s w).1.db ≡ w.db
    unfolding update_subscription_status
    db-update_subscription_status_err s h = ground arith

    pub renew_subscription-Wrote : (t : ℤ) → Wrote w (renew_subscription id t w).1
    unfolding renew_subscription
    renew_subscription-Wrote t = ground arith

    pub db-renew_subscription_ok :
        (t : ℤ)
        → (renew_subscription id t w).0 ≡ ok tt
        → (renew_subscription id t w).1.db ≡ rows_changed id (renewed t) w.db
    unfolding renew_subscription
    db-renew_subscription_ok t h = ground arith

    -- also where the row is missing: then no row is changed
    pub db-renew_subscription_err :
        (t : ℤ) {e : Err}
        → (renew_subscription id t w).0 ≡ err e
        → (renew_subscription id t w).1.db ≡ w.db
    unfolding renew_subscription
    db-renew_subscription_err t h =
        ground (arith, update-of_count (has_id id) (renewed t) w.db.subscriptions)

  -- While the database answers, a status and a level are written.
  module _ (id : String) (w : World) (answers : env.db_fault w.tick ≡ none) where
    pub db-update_subscription_status :
        (s : String)
        → (update_subscription_status id s w).1.db ≡ rows_changed id (replace_status s) w.db
    unfolding update_subscription_status
    db-update_subscription_status s = ground (arith, answers)

    pub db-update_subscription_notified :
        (n : ℕ)
        → (update_subscription_notified id n w).1.db ≡ rows_changed id (replace_notified n) w.db
    unfolding update_subscription_notified
    db-update_subscription_notified n = ground (arith, answers)

  pub update_subscription_notified-Wrote :
      (id : String) (n : ℕ) (w : World) → Wrote w (update_subscription_notified id n w).1
  unfolding update_subscription_notified
  update_subscription_notified-Wrote id n w = ground arith
