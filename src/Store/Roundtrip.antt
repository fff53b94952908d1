-- ===== src/Store/Roundtrip.antt =====
-- `CreateSubscription` of internal/store/subscriptions.go, then `GetSubscription` and
-- `GetSubscriptionByToken`: what was sold is what is read.
use node_panel.Prelude.{
  String, Bool, true, false, ◌≡◌, refl, arith, any, find-append, eq_refl, ap, ◌∙◌,
}
use node_panel.Prelude.Int.{in_int64}
use node_panel.Domain.{Subscription}
use node_panel.Schema.{Db, SubscriptionRow}
use node_panel.Runtime.{Env, World}
use node_panel.Runtime.Exec.{ok}
use node_panel.Runtime.Exec.Ends.{Answers}
use node_panel.Store.Table.{holds}
use node_panel.Store.Subscriptions.{
  create_subscription, get_subscription, get_subscription_by_token, select_subscription,
  scan_subscription, new_row, has_id,
}
use node_panel.Store.Creation.{SameTerms, add_row, db-create_subscription_ok}

scan-new_row :
    (t : Subscription) → in_int64 t.quota_bytes ≡ true → scan_subscription (new_row t) ≡ ok t
unfolding scan_subscription new_row
scan-new_row t fits = rw fits refl

has_id-new_row : (t : Subscription) → has_id t.id (new_row t) ≡ true
unfolding new_row
has_id-new_row t = eq_refl t.id

holds-new_row : (t : Subscription) → holds t.sub_token (new_row t).sub_token ≡ true
unfolding new_row
holds-new_row t = eq_refl t.sub_token

-- The new row is the one that a test finds which only it passes.
select_subscription-add_row :
    (p : SubscriptionRow → Bool) (t : Subscription) (db : Db)
    → any p db.subscriptions ≡ false
    → p (new_row t) ≡ true
    → in_int64 t.quota_bytes ≡ true
    → select_subscription p (add_row t db) ≡ ok t
unfolding select_subscription
select_subscription-add_row p t db others passes fits =
    rw (select_subscription, find-append p db.subscriptions (new_row t) others passes)
      (scan-new_row t fits)

module _ ⦃env : Env⦄ where
  get_subscription-Answers :
      (id : String) (w : World)
      → Answers
      → (get_subscription id w).0 ≡ select_subscription (has_id id) w.db
  unfolding get_subscription
  get_subscription-Answers id w a = ground (arith, a.clear w.tick)

  get_subscription_by_token-Answers :
      (token : String) (w : World)
      → Answers
      → (get_subscription_by_token token w).0
        ≡ select_subscription (λ r. holds token r.sub_token) w.db
  unfolding get_subscription_by_token
  get_subscription_by_token-Answers token w a = ground (arith, a.clear w.tick)

  -- A subscription that was stored, with a quota of 64 bits and a token that no other row holds,
  -- has the terms that were given and is read back as it was returned, by its id and by its token,
  -- while the database answers.
  pub create_subscription-get :
      (s t : Subscription) (w : World)
      → Answers
      → in_int64 s.quota_bytes ≡ true
      → (create_subscription s w).0 ≡ ok t
      → any (λ r. holds t.sub_token r.sub_token) w.db.subscriptions ≡ false
      → SameTerms s t
        × ((get_subscription t.id (create_subscription s w).1).0 ≡ ok t)
        × ((get_subscription_by_token t.sub_token (create_subscription s w).1).0 ≡ ok t)
  create_subscription-get s t w a fits h fresh =
      let (db, free, terms) = db-create_subscription_ok s w h in
      let w' = (create_subscription s w).1 in
      let fits' : in_int64 t.quota_bytes ≡ true = ap in_int64 terms.quota_bytes ∙ fits in
      (
        terms,
        get_subscription-Answers t.id w' a
            ∙ ap (select_subscription (has_id t.id)) db
            ∙ select_subscription-add_row (has_id t.id) t w.db free (has_id-new_row t) fits',
        get_subscription_by_token-Answers t.sub_token w' a
            ∙ ap (select_subscription (λ r. holds t.sub_token r.sub_token)) db
            ∙ select_subscription-add_row (λ r. holds t.sub_token r.sub_token) t w.db fresh
                (holds-new_row t) fits',
      )
