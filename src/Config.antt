-- ===== src/Config.antt =====
-- internal/config/config.go: reading the configuration from the environment of the process.
pub mod Checks
use Prim.Native.String
use node_panel.Prelude.{ℕ, String, Option, none, some, ◌==◌, ltb, if◌then◌else◌}
use node_panel.Prelude.Int.{ℤ, pos}
use node_panel.Prelude.Text.{is_empty}
use node_panel.Runtime.Exec.{Result, ok, err}

abbrev pub default_api_token : String
default_api_token = "dev-token-change-me"

abbrev pub min_api_token_length : ℕ
min_api_token_length = 24

pub record Config : Type 0 where
  pub http_addr : String
  pub db_path : String
  pub api_token : String
  pub collect_interval : ℤ

-- What `Load` refuses a token for.
pub data TokenError : Type 0 where
  missing placeholder too_short : TokenError

-- `os.LookupEnv`, and `time.ParseDuration` in nanoseconds
module _ (lookup_env : String → Option String) (parse_duration : String → Option ℤ) where
  abbrev given : String → Option String → String
  given fallback none = fallback
  given fallback (some v) = if is_empty v then fallback else v

  abbrev env_or : String → String → String
  env_or key fallback = given fallback (lookup_env key)

  abbrev duration : ℤ → Option ℤ → ℤ
  duration fallback none = fallback
  duration fallback (some d) = d

  abbrev given_duration : ℤ → Option String → ℤ
  given_duration fallback none = fallback
  given_duration fallback (some v) =
      if is_empty v then fallback else duration fallback (parse_duration v)

  abbrev env_duration : String → ℤ → ℤ
  env_duration key fallback = given_duration fallback (lookup_env key)

  -- `os.Getenv`
  abbrev get_env : Option String → String
  get_env none = ""
  get_env (some v) = v

  abbrev pub api_token : String
  api_token = get_env (lookup_env "PANEL_API_TOKEN")

  unfoldable pub load : Result TokenError Config
  load =
      let cfg : Config = record {
        http_addr = env_or "PANEL_HTTP_ADDR" ":8080";
        db_path = env_or "PANEL_DB_PATH" "panel.db";
        api_token = api_token;
        collect_interval = env_duration "PANEL_COLLECT_INTERVAL" (pos 30000000000);
      } in
      if cfg.api_token == ""
      then err missing
      else if cfg.api_token == default_api_token
      then err placeholder
      else if ltb (String.len cfg.api_token) min_api_token_length
      then err too_short
      else ok cfg
