-- ===== src/Api/Nodes/Registration.antt =====
-- `registerNode` of internal/api/nodes.go while the database answers.
use node_panel.Prelude.{
  any, ℕ, String, false, none, ◌≡◌, ◌⊎◌, inl, inr, refl, ap, ◌∙◌, arith, Bool-cases,
}
use node_panel.Prelude.Int.{ℤ}
use node_panel.Prelude.Text.{is_empty}
use node_panel.Domain.{Node}
use node_panel.Schema.{Db}
use node_panel.Wire.{Health}
use node_panel.Runtime.{Env, World, next}
use node_panel.Runtime.Exec.{Err, ok, err, Result-cases}
use node_panel.Store.Nodes.{has_id, replace_health}
use node_panel.Store.NewNode.{
  NoOrphans, with_node, nodes_changed, db-delete_new_node, db-update_node_health,
}
use node_panel.NodeClient.{Client, client_for_node, apply_config, health}
use node_panel.NodeClient.Trust.{fetch_cert}
use node_panel.Api.Response.{Response}
use node_panel.Api.Nodes.{RegisterNodeRequest, cert_for, push_first_config, probe, is_blank}

module _ ⦃env : Env⦄ where
  -- What the health call says, asked in the state `v`: online with the version of the node's core,
  -- or offline.
  abbrev pub Probed : Node → String → String → World → Type 0
  Probed n status version v =
      ((h : Health) × ((health (client_for_node n) v).0 ≡ ok h)
        × (status ≡ "online")
        × (version ≡ h.core_version))
      ⊎ ((e : Err) × ((health (client_for_node n) v).0 ≡ err e)
          × (status ≡ "offline")
          × (version ≡ ""))

  db-fetch_cert : (address : String) (w : World) → (fetch_cert address w).1.db ≡ w.db
  unfolding fetch_cert
  db-fetch_cert address w = ground arith

  db-apply_config :
      (c : Client) (config : String) (w : World) → (apply_config c config w).1.db ≡ w.db
  unfolding apply_config
  db-apply_config c config w = ground arith

  db-health : (c : Client) (w : World) → (health c w).1.db ≡ w.db
  unfolding health
  db-health c w = ground arith

  -- The certificate is only looked up: the request keeps one, whatever the node answers.
  pub cert_for_lem :
      (req : RegisterNodeRequest) (w : World)
      → ((pem : String) × ((cert_for req w).0 ≡ ok pem)) × ((cert_for req w).1.db ≡ w.db)
  unfolding cert_for
  cert_for_lem req w = elim (Bool-cases (is_blank req.cert_pem)) [
    | inl e ↦ rw e ((_, refl), db-fetch_cert req.address w)
    | inr e ↦ rw e ((_, refl), refl)
  ]

  module _ (answers : (t : ℕ) → env.db_fault t ≡ none) where
    -- A rejected configuration takes the new node out of the store.
    pub push_first_config_lem :
        (n : Node) (config : String) (db : Db) (w : World)
        → w.db ≡ with_node n db
        → NoOrphans db
        → any (has_id n.id) db.nodes ≡ false
        → (((push_first_config n config w).0 ≡ ok tt)
            × ((push_first_config n config w).1.db ≡ w.db))
          ⊎ ((r : Response) × ((push_first_config n config w).0 ≡ err r)
              × (r.code ≡ 502)
              × ((push_first_config n config w).1.db ≡ db))
    unfolding push_first_config
    push_first_config_lem n config db w stored refs fresh = elim (Bool-cases (is_empty config)) [
      | inl e ↦ rw e (inl (refl, refl))
      | inr e ↦ rw e (
          let c = client_for_node n in
          let w1 = (apply_config c config w).1 in
          elim (Result-cases (apply_config c config w).0) [
            | inl (u, h) ↦ rw h (inl (refl, db-apply_config c config w))
            | inr (x, h) ↦ rw h (
                inr (
                  _,
                  refl,
                  refl,
                  db-delete_new_node n db w1 (answers w1.tick) (db-apply_config c config w ∙ stored)
                      fresh refs,
                ))
          ])
    ]

    -- The probe writes what the node says of itself, and never fails.
    pub probe_lem :
        (n : Node) (w : World)
        → (shown : Node) × ((probe n w).0 ≡ ok shown)
          × (status : String) × (version : String) × (t : ℤ) × Probed n status version w
          × ((probe n w).1.db ≡ nodes_changed n.id (replace_health status version t) w.db)
    unfolding probe
    probe_lem n w =
        let c = client_for_node n in
        let w2 = next (health c w).1 in
        elim (Result-cases (health c w).0) [
          | inl (h, e) ↦ rw e (
            _,
            refl,
            "online",
            h.core_version,
            env.clock (health c w).1.tick,
            inl (h, refl, refl, refl),
            db-update_node_health n w.db w2 (answers w2.tick) n.id "online" h.core_version
                  (env.clock (health c w).1.tick)
                ∙ ap
                    (nodes_changed n.id
                      (replace_health "online" h.core_version (env.clock (health c w).1.tick)))
                    (db-health c w),
          )
          | inr (x, e) ↦ rw e (
            _,
            refl,
            "offline",
            "",
            env.clock (health c w).1.tick,
            inr (x, refl, refl, refl),
            db-update_node_health n w.db w2 (answers w2.tick) n.id "offline" ""
                  (env.clock (health c w).1.tick)
                ∙ ap
                    (nodes_changed n.id
                      (replace_health "offline" "" (env.clock (health c w).1.tick)))
                    (db-health c w),
          )
        ]
