-- ===== src/Domain.antt =====
-- internal/domain/models.go: the panel's records. `int64` and `int` fields are ℤ, `uint64` is ℕ;
-- `notified_threshold` holds only 0, 80, 95 or 100 and is ℕ.
use node_panel.Prelude.{ℕ, String}
use node_panel.Prelude.Int.{ℤ}

pub record Customer : Type 0 where
  pub id : String
  pub name : String
  pub status : String
  pub external_ref : String
  pub created_at : ℤ

pub record Plan : Type 0 where
  pub id : String
  pub name : String
  pub quota_bytes : ℤ
  pub duration_days : ℤ
  pub max_users : ℤ
  pub created_at : ℤ

pub record Node : Type 0 where
  pub id : String
  pub name : String
  pub address : String
  pub master_key : String
  pub core_key : String
  pub cert_pem : String
  pub config_json : String
  pub host_info : String
  pub grpc_port : ℤ
  pub status : String
  pub version : String
  pub capacity_score : ℤ
  pub last_seen_at : ℤ
  pub created_at : ℤ

pub record Subscription : Type 0 where
  pub id : String
  pub customer_id : String
  pub plan_id : String
  pub node_id : String
  pub node_tenant_id : String
  pub sub_token : String
  pub api_key : String
  pub status : String
  pub period_id : ℕ
  pub start_at : ℤ
  pub end_at : ℤ
  pub quota_bytes : ℤ
  pub used_bytes : ℤ
  pub credit_limit_bytes : ℤ
  pub notified_threshold : ℕ
  pub created_at : ℤ

pub record WebhookEndpoint : Type 0 where
  pub id : String
  pub url : String
  pub secret : String
  pub events : String
  pub status : String
