-- ===== src/Store/Quota.antt =====
-- `AddSubscriptionQuota` of internal/store/subscriptions.go, while the database answers and the
-- sum fits: its two statements raise the quota and read it back.
use node_panel.Prelude.{
  subst, ℕ, suc, String, true, false, none, some, List, ◌≡◌, ◌≢◌, refl, ap, sym, ◌∙◌, arith, update,
  find?, All, update-update, update-cong, update_same, find-update, find_passes, All-map, eq_iff,
  Option-cases, inl, inr,
}
use node_panel.Prelude.Int.{
  ℤ, pos, ◌+ℤ◌, ◌-ℤ◌, leb_ℤ, ◌≤ℤ◌, sub64, in_int64, int_laws, wrap64_id, eqb_ℤ,
}
use node_panel.Domain.{Subscription}
use node_panel.Schema.{Db, SubscriptionRow}
use node_panel.Runtime.{Env, World}
use node_panel.Runtime.Exec.{ok}
use node_panel.Store.Subscriptions.{
  has_id, add_subscription_quota, raise_quota, scan_subscription, select_subscription,
}
use node_panel.Store.Effects.{Wrote}
use node_panel.Store.Updates.{rows_changed}

-- The quota of the row is a 64-bit integer that is not negative, and so is its sum with what is
-- added.
pub record Sound (add : ℤ) (r : SubscriptionRow) : Type 0 where
  pub reads : in_int64 r.quota_bytes ≡ true
  pub old_nonneg : pos 0 ≤ℤ r.quota_bytes
  pub fits : in_int64 (r.quota_bytes +ℤ add) ≡ true
  pub new_nonneg : pos 0 ≤ℤ r.quota_bytes +ℤ add

abbrev pub plus_quota : ℤ → SubscriptionRow → SubscriptionRow
plus_quota add r = record r { quota_bytes = r.quota_bytes +ℤ add }

cancel : (a b : ℤ) → (a +ℤ b) +ℤ (pos 0 -ℤ b) ≡ a
cancel a b = grind int_laws

negate_id :
    (add : ℤ) → in_int64 add ≡ true → leb_ℤ add (pos 0) ≡ false → sub64 (pos 0) add ≡ pos 0 -ℤ add
unfolding ◌-ℤ◌
negate_id add small positive =
    wrap64_id (pos 0 -ℤ add) (record { below = ground arith; above = ground arith })

pub negate_nonzero :
    (add : ℤ)
    → in_int64 add ≡ true
    → leb_ℤ add (pos 0) ≡ false
    → eqb_ℤ (sub64 (pos 0) add) (pos 0) ≡ false
unfolding ◌-ℤ◌
negate_nonzero add small positive = rw (negate_id add small positive) (ground arith)

module _ ⦃env : Env⦄ where
  pub raise_quota-Sound :
      (add : ℤ) (r : SubscriptionRow) → Sound add r → raise_quota add r ≡ plus_quota add r
  unfolding raise_quota
  raise_quota-Sound add r h = ground (arith, h.reads, h.old_nonneg, h.fits, h.new_nonneg)

  pub add_subscription_quota-Wrote :
      (id : String) (add : ℤ) (w : World) → Wrote w (add_subscription_quota id add w).1
  unfolding add_subscription_quota
  add_subscription_quota-Wrote id add w = ground arith

  pub id-raise_quota :
      (id : String) (add : ℤ) (r : SubscriptionRow) → has_id id (raise_quota add r) ≡ has_id id r
  unfolding raise_quota
  id-raise_quota id add r = refl

  quota-scan_subscription :
      (r : SubscriptionRow) (sub : Subscription)
      → scan_subscription r ≡ ok sub
      → (sub.id ≡ r.id) × (sub.quota_bytes ≡ r.quota_bytes)
  unfolding scan_subscription
  quota-scan_subscription r sub h = ground arith

  module _ (id : String) (w : World) (answers : (t : ℕ) → env.db_fault t ≡ none) where
    pub db-add_subscription_quota :
        (add : ℤ)
        → eqb_ℤ add (pos 0) ≡ false
        → (add_subscription_quota id add w).1.db ≡ rows_changed id (raise_quota add) w.db
    unfolding add_subscription_quota
    db-add_subscription_quota add h = ground (arith, answers w.tick, answers (suc w.tick))

    pub add_subscription_quota-ok :
        (add : ℤ) (r : SubscriptionRow)
        → eqb_ℤ add (pos 0) ≡ false
        → find? (has_id id) w.db.subscriptions ≡ some r
        → Sound add r
        → (add_subscription_quota id add w).0 ≡ ok (r.quota_bytes +ℤ add)
    unfolding add_subscription_quota scan_subscription
    add_subscription_quota-ok add r h found sound =
        let again =
          find-update (has_id id) (raise_quota add) w.db.subscriptions (id-raise_quota id add) r
            found in
        ground (
          arith,
          answers w.tick,
          answers (suc w.tick),
          again,
          raise_quota-Sound add r sound,
          sound.fits,
        )

  abbrev pub SoundRows : String → ℤ → Db → Type 0
  SoundRows id add db = All (λ r. has_id id r ≡ true → Sound add r) db.subscriptions

  raise_back :
      (add : ℤ) (r : SubscriptionRow)
      → in_int64 add ≡ true
      → leb_ℤ add (pos 0) ≡ false
      → Sound add r
      → raise_quota (sub64 (pos 0) add) (raise_quota add r) ≡ r
  raise_back add r small positive h =
      ap (λ n. raise_quota n (raise_quota add r)) (negate_id add small positive)
      ∙ ap (raise_quota (pos 0 -ℤ add)) (raise_quota-Sound add r h)
      ∙ raise_quota-Sound (pos 0 -ℤ add) (plus_quota add r) (record {
        reads = h.fits;
        old_nonneg = h.new_nonneg;
        fits = ap in_int64 (cancel r.quota_bytes add) ∙ h.reads;
        new_nonneg = subst (λ z. pos 0 ≤ℤ z) (sym (cancel r.quota_bytes add)) h.old_nonneg;
      })
      ∙ ap (λ q. record r { quota_bytes = q }) (cancel r.quota_bytes add)

  -- Where a change of a row can be undone, so can the change of the table.
  update_back :
      (id : String) (f g : SubscriptionRow → SubscriptionRow) (xs : List SubscriptionRow)
      → ((r : SubscriptionRow) → has_id id (f r) ≡ has_id id r)
      → All (λ r. has_id id r ≡ true → g (f r) ≡ r) xs
      → update (has_id id) g (update (has_id id) f xs) ≡ xs
  update_back id f g xs same h =
      update-update (has_id id) f g xs same
      ∙ update-cong (has_id id) (λ r. g (f r)) (λ r. r) xs h
      ∙ update_same (has_id id) xs

  pub rows_back :
      (id : String) (add : ℤ) (db : Db)
      → in_int64 add ≡ true
      → leb_ℤ add (pos 0) ≡ false
      → SoundRows id add db
      → rows_changed id (raise_quota (sub64 (pos 0) add)) (rows_changed id (raise_quota add) db)
        ≡ db
  rows_back id add db small positive sound =
      ap (λ xs. record db { subscriptions = xs })
        (update_back id (raise_quota add) (raise_quota (sub64 (pos 0) add)) db.subscriptions
          (id-raise_quota id add)
          (All-map _ _ (λ r s h. raise_back add r small positive (s h)) db.subscriptions sound))

  scan-select_subscription :
      (id : String) (db : Db) (sub : Subscription) (r : SubscriptionRow)
      → select_subscription (has_id id) db ≡ ok sub
      → find? (has_id id) db.subscriptions ≡ some r
      → scan_subscription r ≡ ok sub
  unfolding select_subscription
  scan-select_subscription id db sub r h found = ground (arith, h, found)

  select_subscription_found :
      (id : String) (db : Db) (sub : Subscription)
      → select_subscription (has_id id) db ≡ ok sub
      → find? (has_id id) db.subscriptions ≢ none
  unfolding select_subscription
  select_subscription_found id db sub h none_there = ground (arith, h, none_there)

  -- The row that a subscription was read from.
  pub select_subscription-row :
      (id : String) (db : Db) {sub : Subscription}
      → select_subscription (has_id id) db ≡ ok sub
      → (r : SubscriptionRow) × (find? (has_id id) db.subscriptions ≡ some r)
        × (sub.id ≡ id)
        × (sub.quota_bytes ≡ r.quota_bytes)
  select_subscription-row id db {sub} h = elim (Option-cases (find? (has_id id) db.subscriptions)) [
    | inl e ↦ absurd (select_subscription_found id db sub h e)
    | inr (r, e) ↦
        let (same, quota) =
          quota-scan_subscription r sub (scan-select_subscription id db sub r h e) in
        (r, e, same ∙ (eq_iff r.id id).0 (find_passes (has_id id) db.subscriptions r e), quota)
  ]
