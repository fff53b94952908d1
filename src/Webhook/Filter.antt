-- ===== src/Webhook/Filter.antt =====
-- `subscribed` of internal/webhook/dispatcher.go
use node_panel.Prelude.{String, Bool, true, ◌||◌, ◌==◌, any, if◌then◌else◌}
use node_panel.Prelude.Text.{trim_space, split}

unfoldable pub subscribed : String → String → Bool
subscribed events event =
    let trimmed = trim_space events in
    if trimmed == "" || trimmed == "*"
    then true
    else any (λ e. trim_space e == event) (split b',' trimmed)
