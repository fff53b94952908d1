-- ===== src/Api/Nodes/Register.antt =====
-- The outcomes of `registerNode` of internal/api/nodes.go while the database answers.
use node_panel.Prelude.{String, Option, some, ◌≡◌, ◌≢◌}
use node_panel.Prelude.Int.{ℤ}
use node_panel.Domain.{Node}
use node_panel.Runtime.{Env, World}
use node_panel.Store.Nodes.{replace_health}
use node_panel.Store.NewNode.{NewNode, with_node, nodes_changed}
use node_panel.Api.Response.{Response}
use node_panel.Api.Nodes.{RegisterNodeRequest}
use node_panel.Api.Nodes.Registration.{Probed}

module _ ⦃env : Env⦄ where
  -- One node more, with the values of the request and the health that the probe has found.
  abbrev pub Registered : Option RegisterNodeRequest → World → Response × World → Type 0
  Registered body w (r, w') =
      (r.code ≡ 201)
      × (req : RegisterNodeRequest) × (n : Node) × (status : String) × (version : String) × (t : ℤ)
      × (body ≡ some req)
      × NewNode req.name req.address req.master_key req.config n w.db
      × (v : World) × (v.db ≡ with_node n w.db)
      × Probed n status version v
      × (w'.db ≡ nodes_changed n.id (replace_health status version t) (with_node n w.db))

  abbrev pub NotRegistered : World → Response × World → Type 0
  NotRegistered w (r, w') = (r.code ≢ 201) × (w'.db ≡ w.db)
