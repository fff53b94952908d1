-- ===== src/Api/Inbounds.antt =====
-- internal/api/nodes.go: the inbound definitions of a node that customers may see. Raw JSON stays
-- text; encoding/json is the environment's.
pub mod Redaction
use node_panel.Prelude.{
  ℕ, String, Option, none, some, List, [], ◌∷◌, Bool, true, false, not, ◌==◌, map, if◌then◌else◌,
}
use node_panel.Prelude.Text.{is_empty}
use node_panel.Domain.{Node}
use node_panel.Wire.{Json, null, other, object, Fields, end, field}
use node_panel.Runtime.{Env}
use node_panel.Runtime.Exec.{Err, Result, ok, err, Exec, ◌>>=◌, ◌>>◌, return, or_else, attempt}
use node_panel.Store.Nodes.{get_node}
use node_panel.NodeClient.{client_for_node, get_inbounds}
use node_panel.Api.Response.{Response, Handler, respond, write_error, raw}

-- `m[key]`, and `delete(m, key)`
abbrev pub lookup : String → Fields → Option Json
lookup key end = none
lookup key (field k v rest) = if k == key then some v else lookup key rest

abbrev pub remove : String → Fields → Fields
remove key end = end
remove key (field k v rest) =
    let others = remove key rest in if k == key then others else field k v others

-- The maps are references: the change of an inner one is seen in the outer one.
abbrev pub at_key : String → (Json → Json) → Fields → Fields
at_key key f end = end
at_key key f (field k v rest) =
    let others = at_key key f rest in if k == key then field k (f v) others else field k v others

abbrev pub without_key : Json → Json
without_key null = null
without_key (other s) = other s
without_key (object fs) = object (remove "privateKey" fs)

abbrev pub without_reality_key : Json → Json
without_reality_key null = null
without_reality_key (other s) = other s
without_reality_key (object fs) = object (at_key "realitySettings" without_key fs)

-- what `redactInboundJSON` does to the decoded map
unfoldable pub redact : Fields → Fields
redact fs = at_key "streamSettings" without_reality_key fs

module _ ⦃env : Env⦄ where
  abbrev or_raw : String → Option String → String
  or_raw given none = given
  or_raw given (some out) = out

  abbrev redact_parsed : String → Option Json → String
  redact_parsed given none = given
  redact_parsed given (some (other s)) = given
  redact_parsed given (some null) = or_raw given (env.render_json null)
  redact_parsed given (some (object fs)) = or_raw given (env.render_json (object (redact fs)))

  unfoldable pub redact_inbound_json : String → String
  unfolding redact
  redact_inbound_json given = redact_parsed given (env.parse_json given)

  abbrev cleaned : Option (List String) → Option String
  cleaned none = none
  cleaned (some []) = none
  cleaned (some (x ∷ xs)) = env.render_inbounds (map redact_inbound_json (x ∷ xs))

  unfoldable pub inbounds_from_config : String → Option String
  unfolding redact_inbound_json
  inbounds_from_config cfg = if is_empty cfg then none else cleaned (env.parse_inbounds cfg)

  abbrev is_some_list : Option (List String) → Bool
  is_some_list none = false
  is_some_list (some []) = false
  is_some_list (some (x ∷ xs)) = true

  abbrev has_inbounds : String → Bool
  has_inbounds doc = is_some_list (env.parse_inbounds doc)

  abbrev fallback : Option String → String
  fallback none = "{\"inbounds\":[]}"
  fallback (some doc) = doc

  abbrev choose : Node → Result Err String → String
  choose n (err e) = fallback (inbounds_from_config n.config_json)
  choose n (ok live) =
      if has_inbounds live then live else fallback (inbounds_from_config n.config_json)

  unfoldable pub resolve_inbounds : {E : Type 0} → Node → Exec E String
  unfolding inbounds_from_config
  resolve_inbounds n = do live ← attempt (get_inbounds (client_for_node n)); return (choose n live)

  unfoldable pub get_node_inbounds : String → Handler
  get_node_inbounds id = do
    n ← or_else (get_node id) (λ _. write_error 404 "node not found")
    doc ← resolve_inbounds n
    return (respond 200 (raw doc))
