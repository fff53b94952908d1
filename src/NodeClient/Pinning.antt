-- ===== src/NodeClient/Pinning.antt =====
-- `IsPinned` and `tlsConfigFor` of internal/nodeclient/client.go
use node_panel.Prelude.{
  String, Option, none, some, List, Bool, true, false, ◌==◌, any, if◌then◌else◌,
}
use node_panel.Prelude.Text.{trim_space, is_empty}
use node_panel.Wire.{Tls, insecure, pinned}
use node_panel.Runtime.{Env}

-- `VerifyPeerCertificate`; without a pin every certificate passes.
unfoldable pub accepts : Tls → List String → Bool
accepts insecure certs = true
accepts (pinned cert) certs = any (λ raw. raw == cert) certs

module _ ⦃env : Env⦄ where
  abbrev some_block : Option String → Bool
  some_block none = false
  some_block (some _) = true

  abbrev pin_of : Option String → Tls
  pin_of none = insecure
  pin_of (some block) = pinned block

  unfoldable pub is_pinned : String → Bool
  is_pinned cert_pem =
      let trimmed = trim_space cert_pem in
      if is_empty trimmed then false else some_block (env.pem_block trimmed)

  unfoldable pub tls_config_for : String → Tls
  tls_config_for cert_pem =
      let trimmed = trim_space cert_pem in
      if is_empty trimmed then insecure else pin_of (env.pem_block trimmed)
