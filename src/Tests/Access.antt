-- ===== src/Tests/Access.antt =====
-- The tokens of internal/api/api.go and internal/config/config.go, and the registration of a node.
use node_panel.Prelude.{
  String, Option, some, none, ◌≡◌, ◌≢◌, ◌↔◌, ◌⊎◌, refl, true, false, ◌==◌, if◌then◌else◌, any,
}
use node_panel.Prelude.Text.{◌<>◌}
use node_panel.Prelude.Int.{ℤ, pos}
use node_panel.Runtime.Exec.{ok, err}
use node_panel.Config.{Config, TokenError, load, api_token}
use node_panel.Config.Checks.{Strong, load-Strong}
use node_panel.Api.Response.{serve}
use node_panel.Api.Nodes.{RegisterNodeRequest, register_node}
use node_panel.Api.Access.{bearer_auth, redact_path, from_slash}
use node_panel.Api.Access.Token.{bearer_auth_iff}
use node_panel.Api.Access.Redaction.{redact_path_hides}
use node_panel.Tests.Fixtures.{demo, panel}

abbrev secret : String
secret = "0123456789abcdef0123456789abcdef"

abbrev shell : String → Option String
shell key = if key == "PANEL_API_TOKEN" then some secret else none

abbrev no_duration : String → Option ℤ
no_duration s = none

load-Strong_example :
    ((cfg : Config) × (load shell no_duration ≡ ok cfg)
      × (cfg.api_token ≡ api_token shell no_duration)
      × Strong cfg.api_token)
    ⊎ ((e : TokenError) × (load shell no_duration ≡ err e)
        × (Strong (api_token shell no_duration) → ⊥))
load-Strong_example = load-Strong shell no_duration

bearer_auth_iff_example :
    (bearer_auth secret "Bearer 0123456789abcdef0123456789abcdef" ≡ true)
    ↔ (("Bearer 0123456789abcdef0123456789abcdef" ≡ "Bearer " <> secret) × (secret ≢ ""))
bearer_auth_iff_example = bearer_auth_iff secret "Bearer 0123456789abcdef0123456789abcdef"

admitted : bearer_auth secret "Bearer 0123456789abcdef0123456789abcdef" ≡ true
unfolding bearer_auth
admitted = refl

redact_path_hides_example :
    redact_path ("/sub/" <> "abc" <> "/info") ≡ "/sub/" <> "<redacted>" <> from_slash "/info"
unfolding from_slash
redact_path_hides_example = redact_path_hides "abc" "/info" refl

abbrev registration : RegisterNodeRequest
registration = record {
  name = "edge";
  address = "http://10.0.0.2:8090";
  master_key = "m";
  core_key = "";
  cert_pem = "";
  grpc_port = pos 0;
  config = "";
  host_info = "";
}

registered : (serve (register_node (some registration)) panel).0.code ≡ 201
unfolding register_node node_panel.Prelude.Text.trim_space node_panel.Prelude.Text.trim_right
    node_panel.Prelude.Text.trim_left node_panel.Prelude.Text.is_space node_panel.Api.Nodes.cert_for
    node_panel.Store.Nodes.create_node node_panel.NodeClient.Trust.fetch_cert
    node_panel.Api.Nodes.push_first_config node_panel.Api.Nodes.probe node_panel.NodeClient.health
registered = refl
