-- ===== src/Api/Router/Guarded.antt =====
-- What a request without the token of the operator can do.
use node_panel.Prelude.{
  ℕ, zero, suc, String, Option, none, some, All, subst, some-injective, Bool, true, false, not,
  List, [], ◌∷◌, ◌≡◌, ◌⊎◌, inl, inr, refl, arith, Option-cases, Bool-cases,
}
use node_panel.Config.{Config}
use node_panel.Runtime.{Env, World}
use node_panel.Api.Response.{Response, serve, write_error}
use node_panel.Api.Access.{bearer_auth}
use node_panel.Api.Connection.Asked.{
  Asked, Asked-ticked, sub_info_handler-Asked, sub_page_handler-Asked,
}
use node_panel.Api.Router.{
  Endpoint, at_sub_page, at_sub_info, Group, unguarded, long_operation, ordinary, Route, routes,
  nth, Request, Match, Library, endpoint_handler, serve_http, guarded, no_route, below_api,
}
use node_panel.Api.Router

abbrev pub unauthorized : Response
unauthorized = write_error 401 "missing or invalid bearer token"

abbrev is_open : Group → Bool
is_open unguarded = true
is_open long_operation = false
is_open ordinary = false

abbrev is_public : Endpoint → Bool
is_public Router.at_health = true
is_public Router.at_sub_page = true
is_public Router.at_sub_info = true
is_public Router.at_docs = true
is_public Router.at_assets = true
is_public e = false

Group-cases : (g : Group) → (g ≡ unguarded) ⊎ (g ≡ long_operation) ⊎ (g ≡ ordinary)
Group-cases g = ground arith

abbrev pattern_at : String → Option Route → String
pattern_at path none = path
pattern_at path (some x) = x.pattern

-- The public endpoints, and no other, stand outside the bearer check, and so do the routes that
-- are not below /api/v1.
abbrev Sorted : Route → Type 0
Sorted r = (is_open r.group ≡ is_public r.endpoint) × (below_api r.pattern ≡ not (is_open r.group))

nth-All {ℓ} :
    (P : Route → Type ℓ) (rs : List Route)
    → All P rs
    → (i : ℕ) (r : Route) → nth rs i ≡ some r
    → P r
nth-All P [] h i r e = absurd (ground arith)
nth-All P (x ∷ rs) h zero r e = subst P (some-injective x r e) h.0
nth-All P (x ∷ rs) h (suc i) r e = nth-All P rs h.1 i r e

nth-Sorted : (i : ℕ) (r : Route) → nth routes i ≡ some r → Sorted r
unfolding routes below_api
nth-Sorted = nth-All Sorted routes (ground arith)

-- What a request comes to that does not carry the token: on a public route it reads, at most
-- asking one node; below /api/v1 it is turned away and nothing has happened.
abbrev pub Harmless : World → String → Response × World → Type 0
Harmless w pattern (r, w') = Asked w w' × (below_api pattern ≡ true → (r ≡ unauthorized) × (w' ≡ w))

-- the pattern that the multiplexer has chosen, or the path where none fits
abbrev pub pattern_of : String → Option Match → String
pattern_of path none = path
pattern_of path (some m) = pattern_at path (nth routes m.index)

module _ ⦃env : Env⦄ (lib : Library) where
  endpoint-Asked :
      (e : Endpoint) (p : String → String) (r : Request) (w : World)
      → is_public e ≡ true
      → Asked w (serve (endpoint_handler lib e p r) w).1
  unfolding endpoint_handler
  endpoint-Asked Router.at_sub_page p r w h = sub_page_handler-Asked (p "token") w
  endpoint-Asked Router.at_sub_info p r w h = sub_info_handler-Asked (p "token") w
  endpoint-Asked Router.at_health p r w h = Asked-ticked w w.tick
  endpoint-Asked Router.at_docs p r w h = Asked-ticked w w.tick
  endpoint-Asked Router.at_assets p r w h = Asked-ticked w w.tick
  endpoint-Asked e p r w h = absurd (ground arith)

  guarded-Harmless :
      (cfg : Config) (x : Route) (p : String → String) (r : Request) (w : World)
      → Sorted x
      → bearer_auth cfg.api_token r.authorization ≡ false
      → Harmless w x.pattern
          (serve (guarded lib cfg x.group r (endpoint_handler lib x.endpoint p r)) w)
  guarded-Harmless cfg x p r w sorted denied = elim (Group-cases x.group) [
    | inl e ↦ rw e (
      endpoint-Asked x.endpoint p r w (ground (arith, e, sorted.0)),
      λ h. absurd (ground (arith, e, h, sorted.1)),
    )
    | inr (inl long) ↦ rw (long, denied) (Asked-ticked w w.tick, λ h. (refl, refl))
    | inr (inr short) ↦ rw (short, denied) (Asked-ticked w w.tick, λ h. (refl, refl))
  ]

  no_route-Harmless :
      (cfg : Config) (r : Request) (w : World)
      → bearer_auth cfg.api_token r.authorization ≡ false
      → Harmless w r.path (serve (no_route lib cfg r) w)
  no_route-Harmless cfg r w denied = elim (Bool-cases (below_api r.path)) [
    | inl e ↦ rw (e, denied) (Asked-ticked w w.tick, λ h. (refl, refl))
    | inr e ↦ rw e (Asked-ticked w w.tick, λ h. absurd (ground (arith, h)))
  ]

  -- Without the token of the operator, whatever the request, the multiplexer and the environment:
  -- no table, queued event or post changes and at most one GET goes out to a node; and on a
  -- pattern below /api/v1, or on a path there that no route fits, the answer is 401 and nothing has happened at all.
  pub serve_http-Harmless :
      (cfg : Config) (r : Request) (w : World)
      → bearer_auth cfg.api_token r.authorization ≡ false
      → Harmless w
          (pattern_of r.path (lib.find routes r.method r.path))
          (serve (serve_http lib cfg r) w)
  unfolding serve_http
  serve_http-Harmless cfg r w denied = elim (Option-cases (lib.find routes r.method r.path)) [
    | inl e ↦ rw e (no_route-Harmless cfg r w denied)
    | inr (m, e) ↦ rw e (elim (Option-cases (nth routes m.index)) [
      | inl k ↦ rw k (no_route-Harmless cfg r w denied)
      | inr (x, k) ↦ rw k (guarded-Harmless cfg x m.param r w (nth-Sorted m.index x k) denied)
    ])
  ]
