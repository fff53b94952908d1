-- ===== src/Api/Connection/Shown.antt =====
-- What the public payload of internal/api/subpage.go shows for a token.
use node_panel.Prelude.{String, ◌≡◌, ◌⊎◌, inl, inr, refl, arith}
use node_panel.Prelude.Int.{ℤ, pos, pos_part, sub64, div64, ◌≤ℤ◌, ◌<ℤ◌}
use node_panel.Domain.{Node, Subscription}
use node_panel.Runtime.{Env, World, next}
use node_panel.Runtime.Exec.{Err, Result, ok, err, Result-cases}
use node_panel.Store.Table.{holds}
use node_panel.Store.Subscriptions.{get_subscription_by_token, select_subscription}
use node_panel.Store.Nodes.{get_node}
use node_panel.Store.Effects.{next-get_node}
use node_panel.NodeClient.{Client, client_for_node, get_inbounds}
use node_panel.Api.Response.{Response, SubInfoResponse, write_error}
use node_panel.Api.Inbounds.{resolve_inbounds}
use node_panel.Api.Connection.{load_sub_info_by_token, stored_info}

module _ ⦃env : Env⦄ where
  pub next-get_subscription_by_token :
      (t : String) (w : World) → (get_subscription_by_token t w).1 ≡ next w
  unfolding get_subscription_by_token
  next-get_subscription_by_token t w = ground arith

  get_subscription_by_token-ok :
      (t : String) (w : World) {s : Subscription}
      → (get_subscription_by_token t w).0 ≡ ok s
      → select_subscription (λ r. holds t r.sub_token) w.db ≡ ok s
  unfolding get_subscription_by_token
  get_subscription_by_token-ok t w h = ground arith

  -- Usage, quota, end and key are those of the row; what remains is the quota less the usage, in 64
  -- bits, or zero; the status is expired exactly when there is an end that has passed, else the
  -- row's; the days are the whole ones up to the end.
  pub record Shows (sub : Subscription) (now : ℤ) (info : SubInfoResponse) : Type 0 where
    pub api_key : info.api_key ≡ sub.api_key
    pub quota : info.quota_bytes ≡ sub.quota_bytes
    pub used : info.used_bytes ≡ sub.used_bytes
    pub end_at : info.end_at ≡ sub.end_at
    pub remains : info.remain_bytes ≡ pos (pos_part (sub64 sub.quota_bytes sub.used_bytes))
    pub status :
        ((pos 0 <ℤ sub.end_at) × (sub.end_at ≤ℤ now) × (info.status ≡ "expired"))
        ⊎ (((sub.end_at ≤ℤ pos 0) ⊎ (now <ℤ sub.end_at)) × (info.status ≡ sub.status))
    pub days :
        ((sub.end_at ≤ℤ now) × (info.days_left ≡ pos 0))
        ⊎ ((now <ℤ sub.end_at) × (info.days_left ≡ div64 (sub64 sub.end_at now) (pos 86400)))

  stored_info-Shows : (sub : Subscription) (now : ℤ) → Shows sub now (stored_info sub now)
  stored_info-Shows sub now = record {
    api_key = refl;
    quota = refl;
    used = refl;
    end_at = refl;
    remains = ground arith;
    status = ground arith;
    days = ground arith;
  }

  db-get_inbounds : (c : Client) (w : World) → (get_inbounds c w).1.db ≡ w.db
  unfolding get_inbounds
  db-get_inbounds c w = ground arith

  module _ (n : Node) (w : World) where
    pub inbounds_known : (doc : String) × ((resolve_inbounds {E = Response} n w).0 ≡ ok doc)
    unfolding resolve_inbounds
    inbounds_known = (_, refl)

    db-resolve_inbounds : (resolve_inbounds {E = Response} n w).1.db ≡ w.db
    unfolding resolve_inbounds
    db-resolve_inbounds = db-get_inbounds (client_for_node n) w

  abbrev pub Answered : String → World → Result Response SubInfoResponse × World → Type 0
  Answered token w (r, w') =
      (w'.db ≡ w.db)
      × (((info : SubInfoResponse) × (sub : Subscription) × (r ≡ ok info)
            × (select_subscription (λ r. holds token r.sub_token) w.db ≡ ok sub)
            × Shows sub (env.clock (next w).tick) info)
          ⊎ ((e : Err) × ((get_subscription_by_token token w).0 ≡ err e)
              × (r ≡ err (write_error 404 "subscription not found"))))

  -- The public payload changes no table. When the row that holds the token can be read, it shows
  -- that row: key, quota, usage and end as stored, as the rest the quota less the usage in 64 bits
  -- or zero, the status expired exactly when there is an end that has passed on the clock and else
  -- the stored one, and the whole days up to the end; otherwise it answers 404.
  pub load_sub_info_by_token-Answered :
      (token : String) (w : World) → Answered token w (load_sub_info_by_token token w)
  unfolding load_sub_info_by_token
  load_sub_info_by_token-Answered token w =
      elim (Result-cases (get_subscription_by_token token w).0) [
        | inr (e, h) ↦ rw (h, next-get_subscription_by_token token w) (refl, inr (e, refl, refl))
        | inl (sub, h) ↦
            let w2 = next (next w) in
            let t = (next w).tick in
            let row = get_subscription_by_token-ok token w h in
            let shows = stored_info-Shows sub (env.clock t) in
            rw (h, next-get_subscription_by_token token w)
              (elim (Result-cases (get_node sub.node_id w2).0) [
                | inr (e, k) ↦
                    rw (k, next-get_node sub.node_id w2) (refl, inl (_, sub, refl, row, shows))
                | inl (n, k) ↦
                    let (doc, d) = inbounds_known n (next w2) in
                    rw (k, next-get_node sub.node_id w2, d)
                      (
                        db-resolve_inbounds n (next w2),
                        inl (
                          _,
                          sub,
                          refl,
                          row,
                          record {
                            api_key = refl;
                            quota = refl;
                            used = refl;
                            end_at = refl;
                            remains = shows.remains;
                            status = shows.status;
                            days = shows.days;
                          },
                        ),
                      )
              ])
      ]
