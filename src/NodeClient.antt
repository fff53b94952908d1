-- ===== src/NodeClient.antt =====
-- internal/nodeclient/client.go: the panel's HTTP client for a node agent. The transport is
-- `Env.handshake` and `Env.node_reply`; a request is in `World.sent` once it has been written to
-- the connection, that is, after the TLS handshake. Texts of errors are not cut at 4096 bytes,
-- and a URL that does not parse is an error of the handshake.
pub mod Pinning
pub mod Calls
pub mod TenantCalls
pub mod Trust
pub mod Pinned
pub mod Kept
use node_panel.Prelude.{ℕ, String, false, leb, eqb, if◌then◌else◌, ◌||◌}
use node_panel.Prelude.Int.{pos}
use node_panel.Prelude.Text.{decimal, trim_space, trim_right_code, ◌<>◌}
use node_panel.Domain.{Node}
use node_panel.Wire.{
  Tls, NodeRequest, Handshake, clear, presents, refused, NodeReply, no_reply, reply, Payload,
  nothing, text, create_tenant, set_quota, version, Decoded, value, eof, bad, UsageView, TenantView,
  Health, CreateTenantRequest, SetQuotaRequest,
}
use node_panel.Runtime.{Env, World, next, log_request}
use node_panel.Runtime.Exec.{Err, failure, Result, ok, err, Exec, ◌>>=◌, ◌>>◌, return, raise}
use Pinning.{tls_config_for, accepts}

pub record Client : Type 0 where
  pub base_url : String
  pub master_key : String
  pub tls : Tls

abbrev no_usage : UsageView
no_usage = record {
  id = "";
  status = "";
  period_id = 0;
  quota_bytes = pos 0;
  used_bytes = pos 0;
  overage_bytes = pos 0;
  remain_bytes = pos 0;
  credit_limit = pos 0;
  expire_at = pos 0;
}

abbrev no_tenant : TenantView
no_tenant = record {
  id = "";
  status = "";
  reason = "";
  period_id = 0;
  quota_bytes = pos 0;
  used_bytes = pos 0;
  credit_limit_bytes = pos 0;
  expire_at = pos 0;
}

module _ ⦃env : Env⦄ where
  -- `New`, as `clientForNode` of internal/api/nodes.go calls it
  unfoldable pub client_for_node : Node → Client
  unfolding tls_config_for
  client_for_node n = record {
    base_url = trim_right_code b'/' n.address;
    master_key = n.master_key;
    tls = tls_config_for n.cert_pem;
  }

  abbrev pub request_of : Client → String → String → Payload → NodeRequest
  request_of c method path payload = record {
    base_url = c.base_url;
    api_key = c.master_key;
    method = method;
    path = path;
    payload = payload;
  }

  abbrev receive : String → NodeReply → Result Err (ℕ × String)
  receive prefix (no_reply e) = err (failure (prefix <> e))
  receive prefix (reply status body) = ok (status, body)

  abbrev write : String → NodeRequest → Exec Err (ℕ × String)
  write prefix r w = (receive prefix (env.node_reply w.tick r), next (log_request r w))

  abbrev connect : String → Tls → NodeRequest → Handshake → Exec Err (ℕ × String)
  connect prefix tls r clear w = write prefix r w
  connect prefix tls r (refused e) w = (err (failure (prefix <> e)), next w)
  connect prefix tls r (presents certs) w =
      if accepts tls certs
      then write prefix r w
      else (err (failure (prefix <> "node certificate does not match pinned certificate")), next w)

  -- `http.Client.Do` and the test of the status, which `do`, `getRaw` and `postLong` share
  unfoldable pub exchange : Client → String → String → Payload → Exec Err (ℕ × String)
  exchange c method path payload = do
    (status, body) ← λ w.
        connect ("node request " <> method <> " " <> path <> ": ") c.tls
          (request_of c method path payload) (env.handshake w.tick c.base_url) w
    if leb 400 status
        then raise (
            failure (
              "node "
              <> method
              <> " "
              <> path
              <> ": status "
              <> decimal status
              <> ": "
              <> trim_space body))
        else return (status, body)

  -- The end of `do`, with a place for the result: 204 and an empty body leave it at its zero.
  abbrev decode_reply : {A : Type 0} → A → Decoded A → Result Err A
  decode_reply zero_value (value a) = ok a
  decode_reply zero_value eof = ok zero_value
  decode_reply zero_value (bad e) = err (failure ("decode node response: " <> e))

  abbrev decode_into : {A : Type 0} → (String → Decoded A) → A → ℕ × String → Exec Err A
  decode_into decode zero_value (status, body) w =
      (if eqb status 204 then ok zero_value else decode_reply zero_value (decode body), w)

  abbrev command : Client → String → String → Payload → Exec Err (Unit {0})
  command c method path payload = do exchange c method path payload; return tt

  unfoldable pub health : Client → Exec Err Health
  unfolding exchange
  health c = do
    r ← exchange c "GET" "/health" nothing
    decode_into env.decode_health (record { status = ""; core_started = false; core_version = "" })
        r

  unfoldable pub apply_config : Client → String → Exec Err (Unit {0})
  unfolding exchange
  apply_config c config_json = command c "POST" "/admin/config" (text config_json)

  unfoldable pub core_start : Client → Exec Err (Unit {0})
  unfolding exchange
  core_start c = command c "POST" "/admin/core/start" nothing

  unfoldable pub core_stop : Client → Exec Err (Unit {0})
  unfolding exchange
  core_stop c = command c "POST" "/admin/core/stop" nothing

  unfoldable pub core_restart : Client → Exec Err (Unit {0})
  unfolding exchange
  core_restart c = command c "POST" "/admin/core/restart" nothing

  -- `postLong`, whose client waits 180 seconds
  abbrev post_long : Client → String → Payload → Exec Err (Unit {0})
  post_long c path payload = command c "POST" path payload

  unfoldable pub set_xray_version : Client → String → Exec Err (Unit {0})
  unfolding exchange
  set_xray_version c v = post_long c "/admin/core/xray-version" (version v)

  unfoldable pub update_node_binary : Client → String → Exec Err (Unit {0})
  unfolding exchange
  update_node_binary c v = post_long c "/admin/node/update" (version v)

  abbrev get_raw : Client → String → Exec Err String
  get_raw c path = do (status, body) ← exchange c "GET" path nothing; return body

  unfoldable pub get_config : Client → Exec Err String
  unfolding exchange
  get_config c = get_raw c "/admin/config"

  unfoldable pub get_inbounds : Client → Exec Err String
  unfolding exchange
  get_inbounds c = get_raw c "/admin/inbounds"

  unfoldable pub provision_tenant : Client → CreateTenantRequest → Exec Err TenantView
  unfolding exchange
  provision_tenant c req = do
    r ← exchange c "POST" "/admin/tenants" (create_tenant req)
    decode_into env.decode_tenant no_tenant r

  unfoldable pub push_quota : Client → String → SetQuotaRequest → Exec Err TenantView
  unfolding exchange
  push_quota c tenant_id req = do
    r ← exchange c "PATCH" ("/admin/tenants/" <> tenant_id <> "/quota") (set_quota req)
    decode_into env.decode_tenant no_tenant r

  unfoldable pub suspend : Client → String → Exec Err (Unit {0})
  unfolding exchange
  suspend c tenant_id = command c "POST" ("/admin/tenants/" <> tenant_id <> "/suspend") nothing

  unfoldable pub resume : Client → String → Exec Err (Unit {0})
  unfolding exchange
  resume c tenant_id = command c "POST" ("/admin/tenants/" <> tenant_id <> "/resume") nothing

  unfoldable pub reset_period : Client → String → Exec Err (Unit {0})
  unfolding exchange
  reset_period c tenant_id = command c "POST" ("/admin/tenants/" <> tenant_id <> "/reset") nothing

  unfoldable pub delete : Client → String → Exec Err (Unit {0})
  unfolding exchange
  delete c tenant_id = command c "DELETE" ("/admin/tenants/" <> tenant_id) nothing

  unfoldable pub tenant_usage : Client → String → Exec Err UsageView
  unfolding exchange
  tenant_usage c tenant_id = do
    r ← exchange c "GET" ("/admin/tenants/" <> tenant_id <> "/usage") nothing
    decode_into env.decode_usage no_usage r
