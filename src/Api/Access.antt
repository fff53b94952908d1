-- ===== src/Api/Access.antt =====
-- `bearerAuth` and `redactPath` of internal/api/api.go.
pub mod Token
pub mod Redaction
use Prim.Native.String.{String, [], ◌∷◌}
use Prim.Native.Char.{code}
use node_panel.Prelude.{Option, none, some, Bool, true, false, not, ◌&&◌, ◌==◌, eqb, if◌then◌else◌}
use node_panel.Prelude.Text.{◌<>◌, is_empty}

-- `strings.HasPrefix` and `strings.TrimPrefix` in one: what follows the prefix, if it is there.
unfoldable pub after_prefix : String → String → Option String
after_prefix [] s = some s
after_prefix (c ∷ p) [] = none
after_prefix (c ∷ p) (d ∷ s) =
    let rest = after_prefix p s in if eqb (code c) (code d) then rest else none

-- The constant-time comparison decides equality.
abbrev admits : String → Option String → Bool
admits api_token none = false
admits api_token (some token) =
    not (is_empty token) && not (is_empty api_token) && token == api_token

-- whether `bearerAuth` passes a request with this Authorization header on
unfoldable pub bearer_auth : String → String → Bool
unfolding after_prefix
bearer_auth api_token header = admits api_token (after_prefix "Bearer " header)

-- from the first `/` on
unfoldable pub from_slash : String → String
from_slash [] = []
from_slash (c ∷ s) = let rest = from_slash s in if eqb (code c) b'/' then c ∷ s else rest

abbrev redacted : String → Option String → String
redacted path none = path
redacted path (some rest) = "/sub/" <> "<redacted>" <> from_slash rest

unfoldable pub redact_path : String → String
unfolding after_prefix from_slash
redact_path path = redacted path (after_prefix "/sub/" path)
