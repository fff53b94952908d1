-- ===== src/NodeClient/Trust.antt =====
-- `FetchCert` of internal/nodeclient/client.go: the certificate that a node presents on first use.
use node_panel.Prelude.{String, Option, none, some, List, [], ◌∷◌, not, ◌==◌, ◌&&◌, if◌then◌else◌}
use node_panel.Prelude.Text.{◌<>◌, is_empty, contains_code}
use node_panel.Wire.{Url}
use node_panel.Runtime.{Env, next}
use node_panel.Runtime.Exec.{Err, failure, Result, ok, err, Exec, return, raise}

abbrev host_or : String → String → String
host_or host address = if is_empty host then address else host

abbrev with_port : String → String
with_port host = if contains_code b':' host then host else host <> ":443"

module _ ⦃env : Env⦄ where
  abbrev first_pem : Option (List String) → Result Err String
  first_pem none = err (failure "dial")
  first_pem (some []) = err (failure "node presented no certificate")
  first_pem (some (c ∷ cs)) = ok (env.pem_text c)

  abbrev fetch_from : String → Option Url → Exec Err String
  fetch_from address none = raise (failure "parse")
  fetch_from address (some u) =
      if not (is_empty u.scheme) && not (u.scheme == "https") then return "" else λ w.
      (first_pem (env.dial w.tick (with_port (host_or u.host address))), next w)

  unfoldable pub fetch_cert : String → Exec Err String
  unfolding contains_code
  fetch_cert address = fetch_from address (env.parse_url address)
