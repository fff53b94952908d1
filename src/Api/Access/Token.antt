-- ===== src/Api/Access/Token.antt =====
-- What `bearerAuth` of internal/api/api.go admits.
use Prim.Native.String.{String, [], ◌∷◌}
use text.Mathlib.TextEquality.{Char-path}
use text.Mathlib.TextLemmas.{nil-append, cons-append}
use Prim.Native.Char.{code}
use node_panel.Prelude.{
  some, some-injective, true, ◌≡◌, ◌≢◌, ◌↔◌, inl, inr, refl, ap, sym, ◌∙◌, arith, eqb, eq_iff,
  eq_refl, Bool-cases, Option-cases,
}
use node_panel.Prelude.Text.{◌<>◌, is_empty}
use node_panel.Api.Access.{after_prefix, bearer_auth}

after_prefix_sound : (p s t : String) → after_prefix p s ≡ some t → s ≡ p <> t
unfolding after_prefix
after_prefix_sound [] s t = λ h. some-injective s t h ∙ sym (nil-append t)
after_prefix_sound (c ∷ p) [] t = λ h. ground arith
after_prefix_sound (c ∷ p) (d ∷ s) t = elim (Bool-cases (eqb (code c) (code d))) [
  | inl e ↦ rw e (λ h.
      ap (λ x. d ∷ x) (after_prefix_sound p s t h)
      ∙ ap (λ x. x ∷ (p <> t)) (sym (Char-path c d (ground (arith, e))))
      ∙ sym (cons-append c p t))
  | inr e ↦ rw e (λ h. ground arith)
]

pub after_prefix_complete : (p t : String) → after_prefix p (p <> t) ≡ some t
unfolding after_prefix
after_prefix_complete [] t = rw (nil-append t) refl
after_prefix_complete (c ∷ p) t = rw (cons-append c p t) (ground (arith, after_prefix_complete p t))

empty_iff : (s : String) → is_empty s ≡ true → s ≡ ""
empty_iff [] h = refl
empty_iff (c ∷ s) h = ground arith

-- A request passes exactly with the header "Bearer " followed by the configured token, and with
-- none while no token is configured.
pub bearer_auth_iff :
    (api_token header : String)
    → (bearer_auth api_token header ≡ true) ↔ ((header ≡ "Bearer " <> api_token) × (api_token ≢ ""))
unfolding bearer_auth
bearer_auth_iff api_token header = (
  elim (Option-cases (after_prefix "Bearer " header)) [
    | inl e ↦ rw e (λ h. ground arith)
    | inr (token, e) ↦ rw e (λ h.
        let same = (eq_iff token api_token).0 (ground (arith, h)) in
        (
          after_prefix_sound "Bearer " header token e ∙ ap (λ t. "Bearer " <> t) same,
          λ none_set. ground (arith, h, ap is_empty none_set),
        ))
  ],
  λ (sent, set).
      rw (sent, after_prefix_complete "Bearer " api_token)
        (ground (
          arith,
          eq_refl api_token,
          λ (h : is_empty api_token ≡ true). set (empty_iff api_token h),
        )),
)
