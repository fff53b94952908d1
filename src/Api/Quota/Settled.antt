-- ===== src/Api/Quota/Settled.antt =====
-- The outcomes of `topupQuota` of internal/api/subscriptions.go while the database answers.
use node_panel.Prelude.{
  ℕ, String, true, false, Option, none, some, ◌≡◌, ◌⊎◌, inl, inr, refl, ap, sym, subst, ◌∙◌, arith,
  Bool-cases, Option-cases, find_passes, All-find,
}
use node_panel.Prelude.Int.{ℤ, pos, ◌+ℤ◌, leb_ℤ, in_int64}
use node_panel.Domain.{Subscription}
use node_panel.Runtime.{Env, World, next}
use node_panel.Runtime.Exec.{ok, Result-cases}
use node_panel.Store.Subscriptions.{
  get_subscription, select_subscription, has_id, add_subscription_quota,
}
use node_panel.Store.Nodes.{get_node}
use node_panel.Store.Effects.{
  next-get_subscription, get_subscription-ok, next-get_node, get_node-ok,
}
use node_panel.Store.Updates.{rows_changed}
use node_panel.Store.Quota.{SoundRows, add_subscription_quota-ok, select_subscription-row}
use node_panel.NodeClient.{client_for_node, push_quota}
use node_panel.Api.Response.{serve}
use node_panel.Api.Subscriptions.{load_sub_and_node}
use node_panel.Api.Quota.{topup_quota}
use node_panel.Api.Quota.Topup.{
  topped_up, ToppedUp, NotToppedUp, new_quota_request, nonzero, raised, level, db_final, db_undone,
  topped_up_sent,
}

module _ ⦃env : Env⦄ where
  -- The amount is a 64-bit integer and leaves the quota of the row one.
  abbrev pub Fits : String → Option ℤ → World → Type 0
  Fits id body w = (n : ℤ) → body ≡ some n → (in_int64 n ≡ true) × SoundRows id n w.db

  module _ (answers : (t : ℕ) → env.db_fault t ≡ none) where
    added :
        (id : String) (add : ℤ) (sub : Subscription) (w : World)
        → select_subscription (has_id id) w.db ≡ ok sub
        → leb_ℤ add (pos 0) ≡ false
        → SoundRows id add w.db
        → (add_subscription_quota sub.id add w).0 ≡ ok (sub.quota_bytes +ℤ add)
    added id add sub w h positive sound =
        let (r, found, same, quota) = select_subscription-row id w.db h in
        subst (λ i. (add_subscription_quota i add w).0 ≡ ok (sub.quota_bytes +ℤ add)) (sym same)
          (add_subscription_quota-ok id w answers add r (nonzero add positive) found (
              All-find _ (has_id id) w.db.subscriptions r sound found
                (find_passes (has_id id) w.db.subscriptions r found))
            ∙ ap (λ q. ok (q +ℤ add)) (sym quota))

    -- While the database answers and the sum fits, a top-up either answers 200, and then the node
    -- has accepted the new quota and the row has it, is active and has the level of the new
    -- ratio; or it answers with an error and the tables are as they were, also when the node
    -- refused after the row had been raised.
    pub topup_quota-Settled :
        (id : String) (body : Option ℤ) (w : World)
        → Fits id body w
        → ((add : ℤ) × (body ≡ some add) × ToppedUp id add w (serve (topup_quota id body) w))
          ⊎ NotToppedUp w (serve (topup_quota id body) w)
    unfolding topup_quota load_sub_and_node
    topup_quota-Settled id body w fits = elim (Result-cases (get_subscription id w).0) [
      | inr (e, h) ↦ rw (h, next-get_subscription id w) (inr ((λ p. ground arith), refl))
      | inl (sub, h) ↦
          rw (h, next-get_subscription id w)
            (elim (Result-cases (get_node sub.node_id (next w)).0) [
              | inr (e, k) ↦
                  rw (k, next-get_node sub.node_id (next w)) (inr ((λ p. ground arith), refl))
              | inl (n, k) ↦
                  rw (k, next-get_node sub.node_id (next w))
                    (elim (Option-cases body) [
                      | inl e ↦ rw e (inr ((λ p. ground arith), refl))
                      | inr (add, e) ↦ rw e (elim (Bool-cases (leb_ℤ add (pos 0))) [
                        | inl e ↦ rw e (inr ((λ p. ground arith), refl))
                        | inr positive ↦
                            let there = get_subscription-ok id w h in
                            let (r, found, same, quota) = select_subscription-row id w.db there in
                            let (small, sound) = fits add e in
                            let here = subst (λ i. SoundRows i add w.db) (sym same) sound in
                            let w2 = next (next w) in
                            rw (positive, added id add sub w2 there positive sound)
                              (elim (Result-cases
                                (push_quota (client_for_node n) sub.node_tenant_id
                                  (new_quota_request sub add) (raised sub.id add sub n w2)).0) [
                                    | inr (x, p) ↦ rw p (
                                        inr (
                                          (λ p. ground arith),
                                          db_undone sub.id add sub n w2 answers positive small here,
                                        ))
                                    | inl (v, p) ↦ rw p (
                                        let (s, rest, asked, took, sent) =
                                          topped_up_sent sub.id add sub n w2 answers positive small
                                            here p in
                                        inl (
                                          add,
                                          refl,
                                          (
                                            refl,
                                            sub,
                                            n,
                                            s,
                                            rest,
                                            there,
                                            get_node-ok sub.node_id (next w) k,
                                            asked,
                                            took,
                                            sent,
                                            db_final sub.id add sub n w2 answers positive small here
                                                ∙ ap
                                                    (λ i.
                                                      rows_changed i
                                                        (topped_up add (level sub.id add sub n w2))
                                                        w.db)
                                                    same,
                                          ),
                                        ))
                                  ])
                      ])
                    ])
            ])
    ]
