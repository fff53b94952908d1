-- ===== src/Schema.antt =====
-- internal/store/schema.sql: the tables that the panel writes. A column without NOT NULL is an
-- `Option`. The tables admins, tenants and audit_logs are never written and are left out.
use node_panel.Prelude.{Bool, ℕ, String, Option, List}
use node_panel.Prelude.Int.{ℤ}
use node_panel.Domain.{Plan, WebhookEndpoint}

pub record CustomerRow : Type 0 where
  pub id : String
  pub name : String
  pub status : String
  pub external_ref : Option String
  pub created_at : ℤ

pub record NodeRow : Type 0 where
  pub id : String
  pub name : String
  pub address : String
  pub master_key : String
  pub core_key : Option String
  pub cert_pem : Option String
  pub config_json : Option String
  pub host_info : Option String
  pub grpc_port : ℤ
  pub status : String
  pub version : Option String
  pub capacity_score : ℤ
  pub last_seen_at : Option ℤ
  pub created_at : ℤ

pub record SubscriptionRow : Type 0 where
  pub id : String
  pub customer_id : String
  pub plan_id : Option String
  pub node_id : Option String
  pub node_tenant_id : Option String
  pub sub_token : Option String
  pub api_key : Option String
  pub status : String
  pub period_id : ℕ
  pub start_at : ℤ
  pub end_at : ℤ
  pub quota_bytes : ℤ
  pub used_bytes : ℤ
  pub credit_limit_bytes : ℤ
  pub notified_threshold : ℕ
  pub created_at : ℤ

pub record ApiKeyRow : Type 0 where
  pub id : String
  pub customer_id : String
  pub key_hash : String
  pub prefix : String
  pub status : String
  pub created_at : ℤ

pub record UsageRecord : Type 0 where
  pub id : String
  pub tenant_id : String
  pub node_id : String
  pub period_id : ℕ
  pub ts : ℤ
  pub used_bytes_cumulative : ℤ

pub record WebhookDelivery : Type 0 where
  pub id : String
  pub endpoint_id : String
  pub event : String
  pub payload : String
  pub status : String
  pub attempts : ℕ
  pub ts : ℤ

-- The table usage_records of a database file: absent, as an older schema made it, with a foreign
-- key to tenants, or as schema.sql makes it.
pub data UsageShape : Type 0 where
  absent constrained plain : UsageShape

-- What the start of the panel may find different in a file: the columns of the tables nodes and
-- subscriptions (none where the table is not there), and a table usage_records_new. Once the panel
-- runs, the tables are those of schema.sql.
pub record Shape : Type 0 where
  pub node_columns : Option (List String)
  pub subscription_columns : Option (List String)
  pub usage : UsageShape
  pub rebuilt : Option (List UsageRecord)
  -- not of the file but of the connection: whether it enforces foreign keys
  pub foreign_keys : Bool

pub record Db : Type 0 where
  pub shape : Shape
  pub customers : List CustomerRow
  pub plans : List Plan
  pub nodes : List NodeRow
  pub subscriptions : List SubscriptionRow
  pub api_keys : List ApiKeyRow
  pub usage_records : List UsageRecord
  pub webhook_endpoints : List WebhookEndpoint
  pub webhook_deliveries : List WebhookDelivery
