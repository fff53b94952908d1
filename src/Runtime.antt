-- ===== src/Runtime.antt =====
-- How the panel's code runs: the environment that answers it, the state that it changes, and
-- calls that may fail.
--
-- The environment is a parameter: every effect takes the next tick and asks the environment what
-- happens at that tick, so a statement for every environment covers every answer of the database
-- driver, the clock, the uuid package, the nodes and the webhook consumers.
pub mod Exec
use node_panel.Prelude.{ℕ, suc, String, Option, none, some, List, [], ◌∷◌, ◌++◌, Bool}
use node_panel.Prelude.Int.{ℤ}
use node_panel.Schema.{Db}
use node_panel.Wire.{
  NodeRequest, Sent, Handshake, Url, Json, NodeReply, Decoded, UsageView, TenantView, Health,
  Envelope, Job, WebhookRequest, PostReply,
}

pub record Env : Type 0 where
  -- google/uuid, `time.Now().Unix()`
  pub uuid : ℕ → String
  pub clock : ℕ → ℤ
  -- the error that the database driver reports for a statement, if any
  pub db_fault : ℕ → Option String
  -- after how many rows the reading of a result breaks off, if it does
  pub rows_broken : ℕ → Option ℕ
  -- what an integer column reads as after an SQL sum of two 64-bit integers that overflows: the
  -- engine goes on in floating point
  pub real_sum : ℤ → ℤ → ℤ
  -- net/http towards a node
  pub handshake : ℕ → String → Handshake
  pub node_reply : ℕ → NodeRequest → NodeReply
  -- net/url, and the certificates of a peer that crypto/tls has connected to
  pub parse_url : String → Option Url
  pub dial : ℕ → String → Option (List String)
  pub json_valid : String → Bool
  pub parse_json : String → Option Json
  pub render_json : Json → Option String
  -- the field `inbounds` of a document, piece by piece, and the document of such pieces
  pub parse_inbounds : String → Option (List String)
  pub render_inbounds : List String → Option String
  pub pem_text : String → String
  -- `json.Indent`, and a day in `time.Time.Format`
  pub json_indent : String → Option String
  pub date_text : ℤ → String
  -- encoding/json, encoding/pem, crypto/sha256 with encoding/hex, crypto/hmac
  pub decode_usage : String → Decoded UsageView
  pub decode_tenant : String → Decoded TenantView
  pub decode_health : String → Decoded Health
  pub marshal_event : Envelope → Option String
  pub pem_block : String → Option String
  pub sha256_hex : String → String
  pub hmac_hex : String → String → String
  -- net/http towards a webhook consumer, and whether a delivery's deadline has passed
  pub post_webhook : ℕ → WebhookRequest → PostReply
  pub deadline_passed : ℕ → Bool

pub record World : Type 0 where
  pub db : Db
  -- the dispatcher's channel, oldest first, and whether its worker has been started
  pub queue : List Job
  pub worker : Bool
  -- the requests that were written to a node, and those posted to consumers, oldest first
  pub sent : List Sent
  pub posted : List WebhookRequest
  -- the effects so far
  pub tick : ℕ

abbrev pub next : World → World
next w = record w { tick = suc w.tick }

-- with the tick of its reply
abbrev pub log_request : NodeRequest → World → World
log_request r w = record w { sent = w.sent ++ record { at = w.tick; request = r } ∷ [] }

abbrev pub log_posts : List WebhookRequest → World → World
log_posts rs w = record w { posted = w.posted ++ rs }
