-- ===== src/Api/Connection/Asked.antt =====
-- What the public payload of internal/api/subpage.go does to the state of the panel: at most one
-- request to a node, which is a GET.
use node_panel.Prelude.{ℕ, String, [], ◌∷◌, ◌++◌, ◌≡◌, ◌⊎◌, inl, inr, refl, arith}
use node_panel.Domain.{Node}
use node_panel.Wire.{Sent, nothing}
use node_panel.Runtime.{Env, World, next}
use node_panel.Runtime.Exec.{Result-cases}
use node_panel.Store.Subscriptions.{get_subscription_by_token}
use node_panel.Store.Nodes.{get_node}
use node_panel.Store.Effects.{next-get_node}
use node_panel.NodeClient.{Client, client_for_node, get_inbounds, request_of}
use node_panel.NodeClient.Calls.{Untouched}
use node_panel.Api.Response.{Response, serve}
use node_panel.Api.Inbounds.{resolve_inbounds}
use node_panel.Api.Connection.{load_sub_info_by_token, sub_info_handler}
use node_panel.Api.Connection.Shown.{next-get_subscription_by_token, inbounds_known}
use node_panel.Api.Page.{sub_page_handler}

-- No table, no queued event and no post has changed, and at most a GET has gone out to a node.
pub record Asked (w w' : World) : Type 0 where
  pub db : w'.db ≡ w.db
  pub queue : w'.queue ≡ w.queue
  pub posted : w'.posted ≡ w.posted
  pub sent :
      (w'.sent ≡ w.sent) ⊎ ((s : Sent) × (w'.sent ≡ w.sent ++ s ∷ []) × (s.request.method ≡ "GET"))

-- Time has passed.
pub Asked-ticked : (w : World) (t : ℕ) → Asked w (record w { tick = t })
Asked-ticked w t = record { db = refl; queue = refl; posted = refl; sent = inl refl }

module _ ⦃env : Env⦄ where
  get_inbounds-Untouched : (c : Client) (w : World) → Untouched w (get_inbounds c w).1
  unfolding get_inbounds
  get_inbounds-Untouched c w = ground arith

  abbrev asking : Client → World → Sent
  asking c w = record { at = w.tick; request = request_of c "GET" "/admin/inbounds" nothing }

  sent-get_inbounds :
      (c : Client) (w : World)
      → ((get_inbounds c w).1.sent ≡ w.sent)
        ⊎ ((get_inbounds c w).1.sent ≡ w.sent ++ asking c w ∷ [])
  unfolding get_inbounds
  sent-get_inbounds c w = ground arith

  get_inbounds-Asked : (c : Client) (w : World) → Asked w (get_inbounds c w).1
  get_inbounds-Asked c w =
      let u = get_inbounds-Untouched c w in
      record {
        db = u.db;
        queue = u.queue;
        posted = u.posted;
        sent = elim (sent-get_inbounds c w) [ inl e ↦ inl e | inr e ↦ inr (asking c w, e, refl) ];
      }

  -- The reads before it took ticks only.
  resolve_inbounds-Asked :
      (n : Node) (w : World) (t : ℕ)
      → Asked w (resolve_inbounds {E = Response} n (record w { tick = t })).1
  unfolding resolve_inbounds
  resolve_inbounds-Asked n w t =
      let a = get_inbounds-Asked (client_for_node n) (record w { tick = t }) in
      record { db = a.db; queue = a.queue; posted = a.posted; sent = a.sent }

  pub load_sub_info_by_token-Asked :
      (token : String) (w : World) → Asked w (load_sub_info_by_token token w).1
  unfolding load_sub_info_by_token
  load_sub_info_by_token-Asked token w = elim (Result-cases (get_subscription_by_token token w).0) [
    | inr (e, h) ↦ rw (h, next-get_subscription_by_token token w) (Asked-ticked w _)
    | inl (sub, h) ↦
        let w2 = next (next w) in
        rw (h, next-get_subscription_by_token token w)
          (elim (Result-cases (get_node sub.node_id w2).0) [
            | inr (e, k) ↦ rw (k, next-get_node sub.node_id w2) (Asked-ticked w _)
            | inl (n, k) ↦
                let (doc, d) = inbounds_known n (next w2) in
                rw (k, next-get_node sub.node_id w2, d) (resolve_inbounds-Asked n w (next w2).tick)
          ])
  ]

  pub sub_info_handler-Asked :
      (token : String) (w : World) → Asked w (serve (sub_info_handler token) w).1
  unfolding sub_info_handler
  sub_info_handler-Asked token w = elim (Result-cases (load_sub_info_by_token token w).0) [
    | inr (e, h) ↦ rw h (load_sub_info_by_token-Asked token w)
    | inl (i, h) ↦ rw h (load_sub_info_by_token-Asked token w)
  ]

  pub sub_page_handler-Asked :
      (token : String) (w : World) → Asked w (serve (sub_page_handler token) w).1
  unfolding sub_page_handler
  sub_page_handler-Asked token w = elim (Result-cases (load_sub_info_by_token token w).0) [
    | inr (e, h) ↦ rw h (load_sub_info_by_token-Asked token w)
    | inl (i, h) ↦ rw h (load_sub_info_by_token-Asked token w)
  ]
