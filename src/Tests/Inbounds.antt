-- ===== src/Tests/Inbounds.antt =====
-- The redaction of an inbound of internal/api/nodes.go, and the payload of the public page of
-- internal/api/subpage.go.
use node_panel.Prelude.{String, some, none, ◌≡◌, refl, ◌==◌, false}
use node_panel.Wire.{other, object, Fields, end, field}
use node_panel.Api.Response.{serve}
use node_panel.Api.Connection.{load_sub_info_by_token, sub_info_handler}
use node_panel.Api.Connection.Shown.{Answered, load_sub_info_by_token-Answered}
use node_panel.Tests.Fixtures.{demo, panel}
use node_panel.Api.Inbounds.{lookup, redact}
use node_panel.Api.Inbounds.Redaction.{StreamRedacted, redact_hides}

abbrev inbound : Fields
inbound = field "port" (other "443") (
    field "streamSettings"
      (object (field "realitySettings" (object (field "privateKey" (other "k") end)) end)) end)

redact_hides_example :
    ((ss rs : Fields)
      → lookup "streamSettings" (redact inbound) ≡ some (object ss)
      → lookup "realitySettings" ss ≡ some (object rs)
      → lookup "privateKey" rs ≡ none)
    × ((key : String)
        → ("streamSettings" == key) ≡ false
        → lookup key (redact inbound) ≡ lookup key inbound)
    × ((ss : Fields)
        → lookup "streamSettings" inbound ≡ some (object ss)
        → (ss' : Fields) × (lookup "streamSettings" (redact inbound) ≡ some (object ss'))
          × StreamRedacted ss ss')
redact_hides_example = redact_hides inbound

hidden :
    redact inbound
    ≡ field "port"
        (other "443")
        (field "streamSettings" (object (field "realitySettings" (object end) end)) end)
unfolding redact
hidden = refl

load_sub_info_by_token-Answered_example :
    Answered "token" panel (load_sub_info_by_token "token" panel)
load_sub_info_by_token-Answered_example = load_sub_info_by_token-Answered "token" panel

page_shown : (serve (sub_info_handler "token") panel).0.code ≡ 200
unfolding sub_info_handler node_panel.Store.Subscriptions.get_subscription_by_token
    node_panel.Store.Subscriptions.scan_subscription node_panel.Store.Nodes.get_node
    node_panel.Api.Inbounds.resolve_inbounds
page_shown = refl
