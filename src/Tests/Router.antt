-- ===== src/Tests/Router.antt =====
-- `Router` of internal/api/api.go: requests without the token of the operator.
use node_panel.Prelude.{
  String, Option, some, none, List, [], ◌≡◌, refl, false, ◌==◌, if◌then◌else◌, ℕ,
}
use node_panel.Prelude.Int.{pos}
use node_panel.Wire.{Decoded, eof, bad}
use node_panel.Config.{Config}
use node_panel.Api.Response.{respond, write_error, serve, plain, raw}
use node_panel.Api.Access.{bearer_auth}
use node_panel.Api.Router.{Request, Match, Library, Route, routes, serve_http}
use node_panel.Api.Router.Guarded.{Harmless, pattern_of, serve_http-Harmless}
use node_panel.Tests.Fixtures.{demo, panel}

abbrev undecodable : {A : Type 0} → List ℕ → Decoded A
undecodable bs = bad "json"

-- a multiplexer that knows two paths
abbrev matched : List Route → String → String → Option Match
matched table method path =
    if path == "/api/v1/customers"
    then some (record { index = 3; param = λ key. "" })
    else if path == "/sub/token/info"
    then some (record { index = 33; param = λ key. "token" })
    else none

abbrev pub library : Library
library = record {
  find = matched;
  unmatched = λ m p. respond 404 (plain "404 page not found");
  asset = λ m p. respond 200 (raw p);
  text = λ bs. "text";
  decode_version = λ bs. eof;
  decode_customer = undecodable;
  decode_subscription = undecodable;
  decode_plan = undecodable;
  decode_node = undecodable;
  decode_node_update = undecodable;
  decode_add_bytes = undecodable;
  decode_webhook = undecodable;
}

abbrev pub settings : Config
settings = record {
  http_addr = ":8080";
  db_path = "panel.db";
  api_token = "0123456789abcdef0123456789abcdef";
  collect_interval = pos 30000000000;
}

abbrev pub asking : String → Request
asking path = record {
  method = "GET";
  path = path;
  authorization = "";
  body = record { bytes = []; broken = false };
}

denied : bearer_auth settings.api_token "" ≡ false
unfolding bearer_auth
denied = refl

serve_http-Harmless_example :
    Harmless panel
      (pattern_of "/sub/token/info" (matched routes "GET" "/sub/token/info"))
      (serve (serve_http library settings (asking "/sub/token/info")) panel)
serve_http-Harmless_example =
    serve_http-Harmless library settings (asking "/sub/token/info") panel denied

turned_away :
    serve (serve_http library settings (asking "/api/v1/customers")) panel
    ≡ (write_error 401 "missing or invalid bearer token", panel)
unfolding serve_http bearer_auth
turned_away = refl
