-- ===== src/Api/Nodes/Core.antt =====
-- internal/api/nodes.go: the configuration and the core of a node.
use node_panel.Prelude.{String, Option, none, some, ◌==◌, if◌then◌else◌}
use node_panel.Prelude.Text.{◌<>◌, is_empty, trim_space}
use node_panel.Domain.{Node}
use node_panel.Wire.{Decoded, value, eof, bad, Health}
use node_panel.Runtime.{Env}
use node_panel.Runtime.Exec.{
  Err, error_text, Result, ok, err, Exec, ◌>>=◌, ◌>>◌, return, raise, or_else, attempt, ignore,
  unix_now,
}
use node_panel.Store.Nodes.{get_node, update_node_config, update_node_health}
use node_panel.NodeClient
use node_panel.NodeClient.{
  Client, client_for_node, core_start, core_stop, core_restart, get_config, apply_config, health,
}
use node_panel.Api.Response.{Response, Handler, respond, write_error, decoded, status, raw}

module _ ⦃env : Env⦄ where
  abbrev pub node_or_404 : String → Exec Response Node
  node_or_404 id = or_else (get_node id) (λ _. write_error 404 "node not found")

  abbrev node_error : Err → Response
  node_error e = write_error 502 ("node error: " <> error_text e)

  unfoldable pub core_lifecycle : String → String → Handler
  core_lifecycle id action = do
    n ← node_or_404 id
    let c = client_for_node n
    if action == "start"
        then or_else (core_start c) node_error
        else if action == "stop"
        then or_else (core_stop c) node_error
        else if action == "restart"
        then or_else (core_restart c) node_error
        else raise (write_error 400 "unknown action")
    return (respond 200 (status action))

  -- An absent body asks for the latest version.
  abbrev pub version_or_latest : Decoded String → Exec Response String
  version_or_latest (value v) = return v
  version_or_latest eof = return ""
  version_or_latest (bad e) = raise (write_error 400 "invalid json body")

  unfoldable pub set_xray_version : String → Decoded String → Handler
  set_xray_version id body = do
    n ← node_or_404 id
    v ← version_or_latest body
    or_else (NodeClient.set_xray_version (client_for_node n) v) node_error
    return (respond 200 (status "xray updated"))

  unfoldable pub update_node_binary : String → Option String → Handler
  update_node_binary id body = do
    n ← node_or_404 id
    v ← decoded body (write_error 400 "invalid json body")
    or_else (NodeClient.update_node_binary (client_for_node n) v) node_error
    return (respond 200 (status "updating"))

  abbrev stored_config : Node → String
  stored_config n = if is_empty n.config_json then "{}" else n.config_json

  abbrev shown_config : Node → Result Err String → String
  shown_config n (err e) = stored_config n
  shown_config n (ok live) = if is_empty (trim_space live) then stored_config n else live

  unfoldable pub get_node_config : String → Handler
  get_node_config id = do
    n ← node_or_404 id
    live ← attempt (get_config (client_for_node n))
    return (respond 200 (raw (shown_config n live)))

  -- the body as it was read, or none
  abbrev pub config_body : Option String → Exec Response String
  config_body none = raise (write_error 400 "config body is empty")
  config_body (some s) =
      if is_empty (trim_space s)
      then raise (write_error 400 "config body is empty")
      else if env.json_valid s
      then return s
      else raise (write_error 400 "config must be valid JSON")

  abbrev pub note_online : String → Result Err Health → Exec Response (Unit {0})
  note_online id (err e) = return tt
  note_online id (ok h) = do
    now ← unix_now
    ignore (update_node_health id "online" h.core_version now)

  unfoldable pub update_node_config_handler : String → Option String → Handler
  update_node_config_handler id sent = do
    n ← node_or_404 id
    body ← config_body sent
    or_else (apply_config (client_for_node n) body)
        (λ e. write_error 502 ("node rejected config: " <> error_text e))
    or_else (update_node_config id body) (λ _. write_error 500 "failed to store config")
    probed ← attempt (health (client_for_node n))
    note_online id probed
    return (respond 200 (status "applied"))
