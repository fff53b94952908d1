-- ===== src/Wire.antt =====
-- What crosses the panel's borders: the node agent's HTTP API as internal/nodeclient/client.go
-- speaks it, and the webhook messages of internal/webhook/dispatcher.go. Request bodies stand
-- here as the values that the code hands to `json.Marshal`.
use node_panel.Prelude.{ℕ, String, List, Bool}
use node_panel.Prelude.Int.{ℤ}

pub record Health : Type 0 where
  pub status : String
  pub core_started : Bool
  pub core_version : String

pub record UsageView : Type 0 where
  pub id : String
  pub status : String
  pub period_id : ℕ
  pub quota_bytes : ℤ
  pub used_bytes : ℤ
  pub overage_bytes : ℤ
  pub remain_bytes : ℤ
  pub credit_limit : ℤ
  pub expire_at : ℤ

pub record TenantView : Type 0 where
  pub id : String
  pub status : String
  pub reason : String
  pub period_id : ℕ
  pub quota_bytes : ℤ
  pub used_bytes : ℤ
  pub credit_limit_bytes : ℤ
  pub expire_at : ℤ

pub record CreateTenantRequest : Type 0 where
  pub id : String
  pub api_key : String
  pub quota_bytes : ℤ
  pub credit_limit_bytes : ℤ
  pub expire_at : ℤ
  pub period_id : ℕ

pub record SetQuotaRequest : Type 0 where
  pub quota_bytes : ℤ
  pub credit_limit_bytes : ℤ
  pub expire_at : ℤ

pub data Payload : Type 0 where
  nothing : Payload
  text : String → Payload
  create_tenant : CreateTenantRequest → Payload
  set_quota : SetQuotaRequest → Payload
  version : String → Payload

-- The certificate check of a client: none, or exactly one accepted certificate.
pub data Tls : Type 0 where
  insecure : Tls
  pinned : String → Tls

pub record NodeRequest : Type 0 where
  pub base_url : String
  pub api_key : String
  pub method : String
  pub path : String
  pub payload : Payload

-- A request that was written to a node, with the tick that its reply belongs to.
pub record Sent : Type 0 where
  pub at : ℕ
  pub request : NodeRequest

-- How a connection to a node begins: in clear text, with the certificates that the peer
-- presents, or not at all.
pub data Handshake : Type 0 where
  clear : Handshake
  presents : List String → Handshake
  refused : String → Handshake

-- What the code reads of a `url.URL`; `port` is "" where it has none.
pub record Url : Type 0 where
  pub scheme : String
  pub host : String
  pub hostname : String
  pub port : String

pub data NodeReply : Type 0 where
  no_reply : String → NodeReply
  reply : ℕ → String → NodeReply

-- The result of `json.Decoder.Decode`: a value, `io.EOF` on an empty body, or another error.
pub data Decoded (A : Type 0) : Type 0 where
  value : A → Decoded A
  eof : Decoded A
  bad : String → Decoded A

pub record UsageData : Type 0 where
  pub customer_id : String
  pub subscription_id : String
  pub period_id : ℕ
  pub used_bytes : ℤ
  pub quota_bytes : ℤ
  pub overage_bytes : ℤ
  pub threshold : ℕ

pub record StatusData : Type 0 where
  pub customer_id : String
  pub subscription_id : String
  pub status : String

pub data EventData : Type 0 where
  usage_data : UsageData → EventData
  status_data : StatusData → EventData

pub record Envelope : Type 0 where
  pub kind : String
  pub timestamp : ℤ
  pub content : EventData

pub record Job : Type 0 where
  pub event : String
  pub body : String

pub record WebhookRequest : Type 0 where
  pub url : String
  pub event : String
  pub signature : String
  pub body : String

pub data PostReply : Type 0 where
  -- the connection failed before the request was written, or the answer did not come
  not_sent unanswered : String → PostReply
  answered : ℕ → PostReply

mutual
  -- A JSON document as far as the code looks into it: what is no object stays as it is.
  pub data Json : Type 0 where
    null : Json
    other : String → Json
    object : Fields → Json

  pub data Fields : Type 0 where
    end : Fields
    field : String → Json → Fields → Fields
