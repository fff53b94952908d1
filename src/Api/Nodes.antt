-- ===== src/Api/Nodes.antt =====
-- internal/api/nodes.go: registering, editing and probing nodes. `deleteNode` is in Lifecycle.
pub mod Core
pub mod Registration
pub mod Register
pub mod Detail
use node_panel.Prelude.{String, Option, none, some, List, Bool, false, not, ◌||◌, if◌then◌else◌}
use node_panel.Prelude.Int.{ℤ}
use node_panel.Prelude.Text.{◌<>◌, is_empty, trim_space}
use node_panel.Domain.{Node}
use node_panel.Wire.{Health}
use node_panel.Runtime.{Env}
use node_panel.Runtime.Exec.{
  Err, error_text, Result, ok, err, Exec, ◌>>=◌, ◌>>◌, return, raise, or_else, attempt, ignore,
  on_result, unix_now,
}
use node_panel.Store.Nodes.{
  NodeUpdate, create_node, get_node, list_nodes, update_node, update_node_health, delete_node,
}
use node_panel.NodeClient.{client_for_node, apply_config, health}
use node_panel.NodeClient.Trust.{fetch_cert}
use node_panel.Api.Response.{
  Response, Handler, respond, write_error, not_found_or_500, decoded, node, nodes,
}
use node_panel.Api.Response

pub record RegisterNodeRequest : Type 0 where
  pub name : String
  pub address : String
  pub master_key : String
  pub core_key : String
  pub cert_pem : String
  pub grpc_port : ℤ
  pub config : String
  pub host_info : String

abbrev pub is_blank : String → Bool
is_blank s = is_empty (trim_space s)

abbrev pub is_blank_edit : Option String → Bool
is_blank_edit none = false
is_blank_edit (some s) = is_blank s

abbrev pub guard : Bool → Response → Exec Response (Unit {0})
guard test r = if test then raise r else return tt

module _ ⦃env : Env⦄ where
  abbrev fetched_or : String → Result Err String → String
  fetched_or given (ok pem) = pem
  fetched_or given (err e) = given

  -- the certificate of a registration: the given one, or what the node presents now
  unfoldable pub cert_for : RegisterNodeRequest → Exec Response String
  cert_for req =
      if not (is_blank req.cert_pem)
      then return req.cert_pem
      else (do fetched ← attempt (fetch_cert req.address); return (fetched_or req.cert_pem fetched))

  -- A node that rejects its first configuration is taken out of the store again.
  unfoldable pub push_first_config : Node → String → Exec Response (Unit {0})
  push_first_config n config = if is_empty config then return tt else (do
    applied ← attempt (apply_config (client_for_node n) config)
    on_result applied (λ _. return tt)
        (λ e. (do
          ignore (delete_node n.id)
          raise (write_error 502 ("node rejected config: " <> error_text e)))))

  -- the probe at the end of `registerNode`
  unfoldable pub probe : Node → Exec Response Node
  probe n = do
    probed ← attempt (health (client_for_node n))
    now ← unix_now
    on_result probed
        (λ h. (do
          ignore (update_node_health n.id "online" h.core_version now)
          return (record n { status = "online"; version = h.core_version })))
        (λ e. (do
          ignore (update_node_health n.id "offline" "" now)
          return (record n { status = "offline" })))

  unfoldable pub register_node : Option RegisterNodeRequest → Handler
  register_node body = do
    req ← decoded body (write_error 400 "invalid json body")
    guard (is_blank req.name || is_blank req.address || is_empty req.master_key)
        (write_error 400 "name, address and master_key are required")
    cert_pem ← cert_for req
    n ←
        or_else
          (create_node req.name req.address req.master_key cert_pem req.config req.grpc_port
            req.core_key req.host_info)
          (λ _. write_error 500 "failed to create node")
    push_first_config n req.config
    shown ← probe n
    return (respond 201 (node shown))

  unfoldable pub list_nodes_handler : Handler
  list_nodes_handler = do
    ns ← or_else list_nodes (λ _. write_error 500 "failed to list nodes")
    return (respond 200 (nodes ns))

  unfoldable pub node_health : String → Handler
  node_health id = do
    n ← or_else (get_node id) (λ _. write_error 404 "node not found")
    probed ← attempt (health (client_for_node n))
    now ← unix_now
    on_result probed
        (λ h. (do
          ignore (update_node_health id "online" h.core_version now)
          return (respond 200 (Response.health h))))
        (λ e. (do
          ignore (update_node_health id "offline" "" now)
          raise (write_error 502 ("node unreachable: " <> error_text e))))

  unfoldable pub update_node_handler : String → Option NodeUpdate → Handler
  update_node_handler id body = do
    req ← decoded body (write_error 400 "invalid json body")
    guard (is_blank_edit req.name) (write_error 400 "name cannot be empty")
    guard (is_blank_edit req.address) (write_error 400 "address cannot be empty")
    or_else (update_node id req) not_found_or_500
    n ← or_else (get_node id) not_found_or_500
    return (respond 200 (node n))
