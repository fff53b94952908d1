-- ===== src/Api/Response.antt =====
-- What the handlers write, and `writeError` and `writeNotFoundOr500` of internal/api/api.go. A
-- response holds the value that is handed to `json.Encoder`.
use node_panel.Prelude.{ℕ, String, Option, none, some, List, Bool}
use node_panel.Prelude.Int.{ℤ}
use node_panel.Domain.{Customer, Plan, Node, Subscription, WebhookEndpoint}
use node_panel.Wire.{Health}
use node_panel.Runtime.{World}
use node_panel.Runtime.Exec.{Err, not_found, failure, Result, ok, err, Exec}

pub record SubscriptionResponse : Type 0 where
  pub subscription : Subscription
  pub api_key : String
  pub node_address : String
  pub sub_token : String

pub record CustomerUsageResponse : Type 0 where
  pub customer_id : String
  pub quota_bytes : ℤ
  pub used_bytes : ℤ
  pub overage_bytes : ℤ

pub record ConnectionInfoResponse : Type 0 where
  pub node_name : String
  pub grpc_address : String
  pub protocol : String
  pub cert_pem : String
  pub inbounds : String
  pub sub_token : String
  pub note : String
  pub host_info : String

pub record SubInfoResponse : Type 0 where
  pub node_name : String
  pub status : String
  pub quota_bytes : ℤ
  pub used_bytes : ℤ
  pub remain_bytes : ℤ
  pub end_at : ℤ
  pub days_left : ℤ
  pub grpc_address : String
  pub protocol : String
  pub cert_pem : String
  pub api_key : String
  pub inbounds : String

-- the fields that the template of the public page shows
pub record SubPageData : Type 0 where
  pub node_name : String
  pub status : String
  pub status_fa : String
  pub used : String
  pub quota : String
  pub remaining : String
  pub pct : ℤ
  pub expiry : String
  pub days_left : ℤ
  pub grpc_address : String
  pub protocol : String
  pub api_key : String
  pub cert_pem : String
  pub inbounds : String

pub record NodeDetailResponse : Type 0 where
  pub id : String
  pub name : String
  pub host : String
  pub address : String
  pub service_port : ℤ
  pub grpc_address : String
  pub grpc_port : ℤ
  pub protocol : String
  pub master_key : String
  pub core_key : String
  pub cert_pem : String
  pub status : String
  pub version : String
  pub last_seen_at : ℤ
  pub created_at : ℤ
  pub host_info : String
  pub cert_pinned : Bool

pub data Body : Type 0 where
  connection : ConnectionInfoResponse → Body
  sub_info : SubInfoResponse → Body
  sub_page : SubPageData → Body
  node_detail : NodeDetailResponse → Body
  plain : String → Body
  redirect : String → Body
  no_body null : Body
  error : String → Body
  raw : String → Body
  status : String → Body
  customer : Customer → Body
  customers : List Customer → Body
  plan : Plan → Body
  plans : List Plan → Body
  node : Node → Body
  nodes : List Node → Body
  health : Health → Body
  subscription : Subscription → Body
  subscriptions : List Subscription → Body
  created : SubscriptionResponse → Body
  usage : CustomerUsageResponse → Body
  webhook : WebhookEndpoint → Body
  webhooks : List WebhookEndpoint → Body

pub record Response : Type 0 where
  pub code : ℕ
  pub body : Body

abbrev pub Handler : Type 0
Handler = Exec Response Response

abbrev pub respond : ℕ → Body → Response
respond code body = record { code = code; body = body }

abbrev pub write_error : ℕ → String → Response
write_error code text = respond code (error text)

abbrev pub no_content : Response
no_content = respond 204 no_body

abbrev pub not_found_or_500 : Err → Response
not_found_or_500 not_found = write_error 404 "not found"
not_found_or_500 (failure text) = write_error 500 text

-- the response, whichever way the handler ended
abbrev pub written : Result Response Response → Response
written (ok r) = r
written (err r) = r

abbrev pub serve : Handler → World → Response × World
serve h w = let (r, w') = h w in (written r, w')

-- A body that `decodeJSON` has read, or none where it failed.
abbrev pub decoded : {A : Type 0} → Option A → Response → Exec Response A
decoded none r w = (err r, w)
decoded (some a) r w = (ok a, w)
