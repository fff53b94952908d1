-- ===== src/Api/Quota/Totals.antt =====
-- `customerUsage` of internal/api/subscriptions.go: the usage of a customer over all subscriptions.
use node_panel.Prelude.{
  ℕ, ◌+◌, ◌-◌, ◌<◌, ◌^◌, String, List, [], ◌∷◌, true, ◌≡◌, refl, ap, ◌∙◌, inl, inr, arith, All,
  select, ◌==◌, Bool-cases,
}
use node_panel.Prelude.Int.{
  ℤ, pos, pos_part, neg_part, in_int64, add64, sub64, wrap64_pos, wrap64_id, ltb_ℤ, ◌+ℤ◌, ◌-ℤ◌,
}
use node_panel.Domain.{Subscription}
use node_panel.Schema.{SubscriptionRow}
use node_panel.Runtime.{Env, World, next}
use node_panel.Runtime.Exec.{ok, statement}
use node_panel.Runtime.Exec.Ends.{Answers}
use node_panel.Store.Table.{newest_first, place}
use node_panel.Store.Subscriptions.{scan_subscription, scan_all, list_subscriptions_by_customer}
use node_panel.Api.Response.{respond, usage}
use node_panel.Api.Events.{at_least_zero}
use node_panel.Api.Quota.{customer_usage, add_usage}

module _ {A : Type 0} where
  abbrev pub total : (A → ℕ) → List A → ℕ
  total f [] = 0
  total f (x ∷ xs) = f x + total f xs

  total-place :
      (t : A → ℤ) (f : A → ℕ) (x : A) (xs : List A) → total f (place t x xs) ≡ f x + total f xs
  total-place t f x [] = refl
  total-place t f x (y ∷ ys) = ground (arith, total-place t f x ys)

  total-newest_first :
      (t : A → ℤ) (f : A → ℕ) (xs : List A) → total f (newest_first t xs) ≡ total f xs
  total-newest_first t f [] = refl
  total-newest_first t f (x ∷ xs) =
      total-place t f x (newest_first t xs) ∙ ap (λ n. f x + n) (total-newest_first t f xs)

  All-place :
      (t : A → ℤ) (P : A → Type 0) (x : A) (xs : List A) → P x → All P xs → All P (place t x xs)
  All-place t P x [] p h = (p, tt)
  All-place t P x (y ∷ ys) p h = elim (Bool-cases (ltb_ℤ (t x) (t y))) [
    | inl e ↦ rw e (h.0, All-place t P x ys p h.1)
    | inr e ↦ rw e (p, h)
  ]

  All-newest_first :
      (t : A → ℤ) (P : A → Type 0) (xs : List A) → All P xs → All P (newest_first t xs)
  All-newest_first t P [] h = tt
  All-newest_first t P (x ∷ xs) h =
      All-place t P x (newest_first t xs) h.0 (All-newest_first t P xs h.1)

-- Neither column is negative.
pub record Counted (r : SubscriptionRow) : Type 0 where
  pub quota : neg_part r.quota_bytes ≡ 0
  pub used : neg_part r.used_bytes ≡ 0

abbrev pub quota_of_row : SubscriptionRow → ℕ
quota_of_row r = pos_part r.quota_bytes

abbrev pub used_of_row : SubscriptionRow → ℕ
used_of_row r = pos_part r.used_bytes

add64_part :
    (a : ℕ) (z : ℤ)
    → neg_part z ≡ 0
    → a + pos_part z < 2 ^ 63
    → add64 (pos a) z ≡ pos (a + pos_part z)
unfolding ◌+ℤ◌
add64_part a z h fits = ground (arith, h, wrap64_pos (a + pos_part z) fits)

scan-Counted :
    (r : SubscriptionRow)
    → Counted r
    → quota_of_row r < 2 ^ 63
    → (s : Subscription) × (scan_subscription r ≡ ok s)
      × (s.quota_bytes ≡ r.quota_bytes)
      × (s.used_bytes ≡ r.used_bytes)
unfolding scan_subscription
scan-Counted r c fits =
    let inside : in_int64 r.quota_bytes ≡ true = ground (arith, c.quota, fits) in
    rw inside (_, refl, refl, refl)

scan_all-cons :
    (r : SubscriptionRow) (rows : List SubscriptionRow) (s : Subscription) (ss : List Subscription)
    → scan_subscription r ≡ ok s
    → scan_all rows ≡ ok ss
    → scan_all (r ∷ rows) ≡ ok (s ∷ ss)
unfolding scan_all
scan_all-cons r rows s ss h k = ground (arith, h, k)

-- The loop adds up what the rows say, as long as the sums fit.
scan_all-Totals :
    (rows : List SubscriptionRow) (a b : ℕ)
    → All Counted rows
    → a + total quota_of_row rows < 2 ^ 63
    → b + total used_of_row rows < 2 ^ 63
    → (ss : List Subscription) × (scan_all rows ≡ ok ss)
      × (add_usage ss (pos a, pos b)
          ≡ (pos (a + total quota_of_row rows), pos (b + total used_of_row rows)))
unfolding scan_all
scan_all-Totals [] a b c fa fb = ([], refl, ground arith)
scan_all-Totals (r ∷ rows) a b c fa fb =
    let (s, scanned, quota, used) = scan-Counted r c.0 (ground (arith, fa)) in
    let (ss, rest, sums) =
      scan_all-Totals rows (a + quota_of_row r) (b + used_of_row r) c.1 (ground (arith, fa))
        (ground (arith, fb)) in
    let qa : add64 (pos a) s.quota_bytes ≡ pos (a + quota_of_row r) =
      ap (add64 (pos a)) quota ∙ add64_part a r.quota_bytes c.0.quota (ground (arith, fa)) in
    let ub : add64 (pos b) s.used_bytes ≡ pos (b + used_of_row r) =
      ap (add64 (pos b)) used ∙ add64_part b r.used_bytes c.0.used (ground (arith, fb)) in
    (
      s ∷ ss,
      scan_all-cons r rows s ss scanned rest,
      ap (λ x. add_usage ss (x, add64 (pos b) s.used_bytes)) qa
          ∙ ap (λ y. add_usage ss (pos (a + quota_of_row r), y)) ub
          ∙ sums
          ∙ ground arith,
    )

overage_exact :
    (u q : ℕ) → u < 2 ^ 63 → q < 2 ^ 63 → at_least_zero (sub64 (pos u) (pos q)) ≡ pos (u - q)
unfolding ◌-ℤ◌
overage_exact u q fu fq = ground (
  arith,
  fu,
  fq,
  wrap64_id (pos u -ℤ pos q) (record { below = ground (arith, fu); above = ground (arith, fq) }),
)

abbrev pub of_customer : String → List SubscriptionRow → List SubscriptionRow
of_customer id rows = select (λ r. r.customer_id == id) rows

module _ ⦃env : Env⦄ where
  list_subscriptions_by_customer-Answers :
      (id : String) (w : World) (ss : List Subscription)
      → Answers
      → scan_all (newest_first (λ r. r.created_at) (of_customer id w.db.subscriptions)) ≡ ok ss
      → list_subscriptions_by_customer id w ≡ (ok ss, next w)
  unfolding list_subscriptions_by_customer
  list_subscriptions_by_customer-Answers id w ss a h = rw (statement, a.clear w.tick, h) refl

  -- While the database answers, and the quotas and the usages of a customer's rows are not negative
  -- and their sums are below 2^63: the usage of the customer is shown as those sums, whatever the
  -- order of the rows, and the overage as what the usage exceeds the quota by, zero if it does not.
  pub customer_usage-Totals :
      (id : String) (w : World)
      → Answers
      → All Counted (of_customer id w.db.subscriptions)
      → total quota_of_row (of_customer id w.db.subscriptions) < 2 ^ 63
      → total used_of_row (of_customer id w.db.subscriptions) < 2 ^ 63
      → customer_usage id w ≡ (
        ok (
            respond 200 (
              usage (record {
                customer_id = id;
                quota_bytes = pos (total quota_of_row (of_customer id w.db.subscriptions));
                used_bytes = pos (total used_of_row (of_customer id w.db.subscriptions));
                overage_bytes = pos (
                    total used_of_row (of_customer id w.db.subscriptions)
                    - total quota_of_row (of_customer id w.db.subscriptions));
              }))),
        next w,
      )
  unfolding customer_usage
  customer_usage-Totals id w a counted fq fu =
      let rows = of_customer id w.db.subscriptions in
      let time : SubscriptionRow → ℤ = λ r. r.created_at in
      let sorted = newest_first time rows in
      let q = total-newest_first time quota_of_row rows in
      let u = total-newest_first time used_of_row rows in
      let (ss, scanned, sums) =
        scan_all-Totals sorted 0 0 (All-newest_first time Counted rows counted)
          (ground (arith, q, fq)) (ground (arith, u, fu)) in
      let shown : add_usage ss (pos 0, pos 0)
          ≡ (pos (total quota_of_row rows), pos (total used_of_row rows)) =
        sums ∙ ground (arith, q, u) in
      rw
        (
          list_subscriptions_by_customer-Answers id w ss a scanned,
          shown,
          overage_exact (total used_of_row rows) (total quota_of_row rows) fu fq,
        )
        refl
