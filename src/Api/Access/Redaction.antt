-- ===== src/Api/Access/Redaction.antt =====
-- What `redactPath` of internal/api/api.go leaves of a path.
use Prim.Native.String.{String, [], ◌∷◌}
use Prim.Native.Char.{code}
use text.Mathlib.TextLemmas.{nil-append, cons-append, cons≢nil}
use node_panel.Prelude.{◌≡◌, refl, ap, eqb, Bool-cases, inl, inr}
use node_panel.Prelude.Text.{◌<>◌}
use node_panel.Api.Access.{from_slash, redact_path}
use node_panel.Api.Access.Token.{after_prefix_complete}

-- In a text without a slash nothing is left, so what is left of a longer one begins after it.
from_slash-append :
    (token rest : String) → from_slash token ≡ "" → from_slash (token <> rest) ≡ from_slash rest
unfolding from_slash
from_slash-append [] rest = rw (nil-append rest) (λ h. refl)
from_slash-append (c ∷ token) rest =
    rw (cons-append c token rest) (elim (Bool-cases (eqb (code c) b'/')) [
      | inl e ↦ rw e (λ h. absurd (cons≢nil h))
      | inr e ↦ rw e (from_slash-append token rest)
    ])

-- The token of a subscription page does not show in the logged path: for a token without a slash,
-- the logged path is the same placeholder and what follows from the next slash on.
pub redact_path_hides :
    (token rest : String)
    → from_slash token ≡ ""
    → redact_path ("/sub/" <> token <> rest) ≡ "/sub/" <> "<redacted>" <> from_slash rest
unfolding redact_path
redact_path_hides token rest h =
    rw (after_prefix_complete "/sub/" (token <> rest))
      (ap (λ s. "/sub/" <> "<redacted>" <> s) (from_slash-append token rest h))
