-- ===== src/NodeClient/Calls.antt =====
-- What a call of internal/nodeclient/client.go does to the panel's own state: nothing but the
-- trace of requests; and a call that succeeds was answered by the node.
use node_panel.Prelude.{
  ℕ, String, Bool, true, false, [], ◌∷◌, ◌++◌, ◌≡◌, ◌⊎◌, inl, inr, List, Bool-cases, arith, ltb,
}
use node_panel.Prelude.Text.{◌<>◌}
use node_panel.Wire.{
  NodeRequest, Sent, NodeReply, no_reply, reply, Payload, nothing, Tls, Handshake, clear, presents,
  refused, CreateTenantRequest, TenantView, create_tenant,
}
use node_panel.Runtime.{Env, World}
use node_panel.Runtime.Exec.{ok}
use node_panel.NodeClient.{Client, exchange, request_of, delete, provision_tenant}
use node_panel.NodeClient.Pinning.{accepts}

module _ ⦃env : Env⦄ where
  abbrev pub answered_below_400 : NodeReply → Bool
  answered_below_400 (no_reply e) = false
  answered_below_400 (reply status body) = ltb status 400

  abbrev pub passes : Tls → Handshake → Bool
  passes tls clear = true
  passes tls (presents certs) = accepts tls certs
  passes tls (refused e) = false

  -- The node answered the request with a status below 400.
  abbrev pub accepted : Sent → Bool
  accepted s = answered_below_400 (env.node_reply s.at s.request)

  -- Between two states nothing but the ticks and the trace of requests has changed.
  pub record Untouched (w w' : World) : Type 0 where
    pub db : w'.db ≡ w.db
    pub queue : w'.queue ≡ w.queue
    pub posted : w'.posted ≡ w.posted

  -- The request was written last, and the node accepted it.
  pub record Delivered (q : NodeRequest) (w w' : World) : Type 0 where
    pub sent : w'.sent ≡ w.sent ++ record { at = w.tick; request = q } ∷ []
    pub took : accepted (record { at = w.tick; request = q }) ≡ true

  pub exchange-Untouched :
      (c : Client) (method path : String) (p : Payload) (w : World)
      → Untouched w (exchange c method path p w).1
  unfolding exchange
  exchange-Untouched c method path p w = ground arith

  pub exchange-Delivered :
      (c : Client) (method path : String) (p : Payload) (w : World) {x : ℕ × String}
      → (exchange c method path p w).0 ≡ ok x
      → Delivered (request_of c method path p) w (exchange c method path p w).1
  unfolding exchange
  exchange-Delivered c method path p w h = ground arith

  pub delete-Untouched : (c : Client) (t : String) (w : World) → Untouched w (delete c t w).1
  unfolding delete
  delete-Untouched c t w = ground arith

  abbrev pub delete_request : Client → String → NodeRequest
  delete_request c t = request_of c "DELETE" ("/admin/tenants/" <> t) nothing

  pub delete-Delivered :
      (c : Client) (t : String) (w : World)
      → (delete c t w).0 ≡ ok tt
      → Delivered (delete_request c t) w (delete c t w).1
  unfolding delete
  delete-Delivered c t w h = ground arith

  pub provision_tenant-Untouched :
      (c : Client) (r : CreateTenantRequest) (w : World) → Untouched w (provision_tenant c r w).1
  unfolding provision_tenant
  provision_tenant-Untouched c r w = ground arith

  abbrev pub create_request : Client → CreateTenantRequest → NodeRequest
  create_request c r = request_of c "POST" "/admin/tenants" (create_tenant r)

  pub provision_tenant-Delivered :
      (c : Client) (r : CreateTenantRequest) (w : World) {v : TenantView}
      → (provision_tenant c r w).0 ≡ ok v
      → Delivered (create_request c r) w (provision_tenant c r w).1
  unfolding provision_tenant
  provision_tenant-Delivered c r w h = ground arith

  -- The request went out, or no connection opened for it.
  abbrev pub Attempted : Client → NodeRequest → ℕ → List Sent → List Sent → Type 0
  Attempted c q t before after =
      ((passes c.tls (env.handshake t c.base_url) ≡ true)
        × (after ≡ before ++ record { at = t; request = q } ∷ []))
      ⊎ ((passes c.tls (env.handshake t c.base_url) ≡ false) × (after ≡ before))

  -- A deletion is sent whenever a connection opens, whatever the node answers.
  pub sent-delete :
      (c : Client) (t : String) (w : World)
      → Attempted c (delete_request c t) w.tick w.sent (delete c t w).1.sent
  unfolding delete
  sent-delete c t w = elim (Bool-cases (passes c.tls (env.handshake w.tick c.base_url))) [
    | inl e ↦ inl (e, ground (arith, e))
    | inr e ↦ inr (e, ground (arith, e))
  ]

  -- A creation sends at most that one request.
  pub sent-provision_tenant :
      (c : Client) (r : CreateTenantRequest) (w : World)
      → ((provision_tenant c r w).1.sent ≡ w.sent)
        ⊎ ((provision_tenant c r w).1.sent
            ≡ w.sent ++ record { at = w.tick; request = create_request c r } ∷ [])
  unfolding provision_tenant
  sent-provision_tenant c r w = ground arith
