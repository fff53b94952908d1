-- ===== src/Config/Checks.antt =====
-- Which tokens `Load` of internal/config/config.go accepts.
use Prim.Native.String
use node_panel.Prelude.{
  String, Option, ap, ◌≡◌, ◌≢◌, ◌⊎◌, ◌≤◌, inl, inr, refl, arith, ◌==◌, ltb, Bool-cases, eq_iff,
}
use node_panel.Prelude.Int.{ℤ}
use node_panel.Runtime.Exec.{ok, err}
use node_panel.Config.{Config, TokenError, load, api_token, default_api_token, min_api_token_length}

-- The token is neither public nor short.
pub record Strong (token : String) : Type 0 where
  pub not_public : token ≢ default_api_token
  pub long : min_api_token_length ≤ String.len token

module _ (lookup_env : String → Option String) (parse_duration : String → Option ℤ) where
  -- The panel starts exactly with a token that has at least 24 bytes and is not the public
  -- placeholder, and with that token.
  pub load-Strong :
      ((cfg : Config) × (load lookup_env parse_duration ≡ ok cfg)
        × (cfg.api_token ≡ api_token lookup_env parse_duration)
        × Strong cfg.api_token)
      ⊎ ((e : TokenError) × (load lookup_env parse_duration ≡ err e)
          × (Strong (api_token lookup_env parse_duration) → ⊥))
  unfolding load
  load-Strong =
      let token = api_token lookup_env parse_duration in
      elim (Bool-cases (token == "")) [
        | inl e ↦
            rw e (inr (_, refl, λ s. ground (arith, s.long, ap String.len ((eq_iff token "").0 e))))
        | inr e ↦ rw e (elim (Bool-cases (token == default_api_token)) [
          | inl d ↦ rw d (inr (_, refl, λ s. s.not_public ((eq_iff token default_api_token).0 d)))
          | inr d ↦ rw d (elim (Bool-cases (ltb (String.len token) min_api_token_length)) [
            | inl l ↦ rw l (inr (_, refl, λ s. ground (arith, s.long, l)))
            | inr l ↦ rw l (
                inl (
                  _,
                  refl,
                  refl,
                  record {
                    not_public = λ p. ground (arith, d, (eq_iff token default_api_token).1 p);
                    long = ground (arith, l);
                  },
                ))
          ])
        ])
      ]
