-- ===== src/NodeClient/Pinned.antt =====
-- Certificate pinning of internal/nodeclient/client.go: when a request, which carries the node's
-- master key, is written to a connection.
use node_panel.Prelude.{
  String, some, List, [], ◌∷◌, ◌++◌, true, ◌≡◌, ◌⊎◌, inl, inr, refl, ◌∙◌, arith, ◌==◌, any,
  Bool-cases, Option-cases, eq_refl,
}
use node_panel.Prelude.Text.{trim_space, is_empty}
use node_panel.Domain.{Node}
use node_panel.Wire.{Payload, pinned, Handshake, clear, presents, refused}
use node_panel.Runtime.{Env, World}
use node_panel.NodeClient.{Client, client_for_node, exchange}
use node_panel.NodeClient.Pinning.{accepts, is_pinned, tls_config_for}

-- The check passes with the pinned certificate at any place of the chain that the peer presents,
-- also behind a leaf of the peer's own.
pub accepts_anywhere :
    (cert : String) (before after : List String)
    → accepts (pinned cert) (before ++ cert ∷ after) ≡ true
unfolding accepts
accepts_anywhere cert [] after = rw (eq_refl cert) refl
accepts_anywhere cert (leaf ∷ before) after = elim (Bool-cases (leaf == cert)) [
  | inl e ↦ rw e refl
  | inr e ↦ rw e (accepts_anywhere cert before after)
]

Handshake-cases :
    (h : Handshake)
    → (h ≡ clear)
      ⊎ ((certs : List String) × (h ≡ presents certs))
      ⊎ ((e : String) × (h ≡ refused e))
Handshake-cases clear = inl refl
Handshake-cases (presents certs) = inr (inl (certs, refl))
Handshake-cases (refused e) = inr (inr (e, refl))

module _ ⦃env : Env⦄ where
  -- Nothing was written; or the connection is in clear text; or the peer presented the
  -- certificate.
  abbrev pub Guarded : Client → String → World → World → Type 0
  Guarded c cert w w' =
      (w'.sent ≡ w.sent)
      ⊎ (env.handshake w.tick c.base_url ≡ clear)
      ⊎ ((certs : List String) × (env.handshake w.tick c.base_url ≡ presents certs)
          × (any (λ raw. raw == cert) certs ≡ true))

  exchange-Guarded :
      (c : Client) (cert method path : String) (p : Payload) (w : World)
      → c.tls ≡ pinned cert
      → Guarded c cert w (exchange c method path p w).1
  unfolding exchange accepts
  exchange-Guarded c cert method path p w h =
      elim (Handshake-cases (env.handshake w.tick c.base_url)) [
        | inl e ↦ inr (inl e)
        | inr rest ↦ elim rest [
          | inr (x, e) ↦ inl (ground (arith, e, h))
          | inl (certs, e) ↦ elim (Bool-cases (any (λ raw. raw == cert) certs)) [
            | inl b ↦ inr (inr (certs, e, b))
            | inr b ↦ inl (ground (arith, e, h, b))
          ]
        ]
      ]

  pinned_block :
      (pem : String)
      → is_pinned pem ≡ true
      → (block : String) × (env.pem_block (trim_space pem) ≡ some block)
        × (tls_config_for pem ≡ pinned block)
  unfolding is_pinned tls_config_for
  pinned_block pem = elim (Bool-cases (is_empty (trim_space pem))) [
    | inl e ↦ rw e (λ h. ground arith)
    | inr e ↦ rw e (elim (Option-cases (env.pem_block (trim_space pem))) [
      | inl b ↦ rw b (λ h. ground arith)
      | inr (block, b) ↦ rw b (λ h. (block, refl, refl))
    ])
  ]

  tls-client_for_node : (n : Node) → (client_for_node n).tls ≡ tls_config_for n.cert_pem
  unfolding client_for_node
  tls-client_for_node n = refl

  -- To a node that counts as pinned, a request is written only in clear text or after the peer
  -- has presented the certificate that is stored.
  pub exchange-Pinned :
      (n : Node) (method path : String) (p : Payload) (w : World)
      → is_pinned n.cert_pem ≡ true
      → (block : String) × (env.pem_block (trim_space n.cert_pem) ≡ some block)
        × Guarded (client_for_node n) block w (exchange (client_for_node n) method path p w).1
  exchange-Pinned n method path p w h =
      let (block, stored, config) = pinned_block n.cert_pem h in
      (
        block,
        stored,
        exchange-Guarded (client_for_node n) block method path p w (tls-client_for_node n ∙ config),
      )
