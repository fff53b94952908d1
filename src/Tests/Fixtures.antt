-- ===== src/Tests/Fixtures.antt =====
-- One node that accepts everything, one customer with a plan and an active subscription, and one
-- webhook consumer.
use Prim.Native.String
use node_panel.Prelude.{ℕ, zero, suc, String, false, true, none, some, [], ◌∷◌, refl}
use node_panel.Prelude.Int.{pos}
use node_panel.Domain.{Plan, WebhookEndpoint}
use node_panel.Schema.{plain, Db, CustomerRow, NodeRow, SubscriptionRow}
use node_panel.Wire.{other, clear, reply, eof, value, answered, UsageView}
use node_panel.Runtime.{Env, World}
use node_panel.Runtime.Exec.Ends.{Answers}

abbrev pub tally : ℕ → String
tally zero = "u"
tally (suc n) = String.◌++◌ "x" (tally n)

abbrev pub reported : UsageView
reported = record {
  id = "t1";
  status = "active";
  period_id = 1;
  quota_bytes = pos 1000;
  used_bytes = pos 960;
  overage_bytes = pos 0;
  remain_bytes = pos 40;
  credit_limit = pos 0;
  expire_at = pos 2000;
}

instance abbrev pub demo : Env
demo = record {
  uuid = tally;
  clock = λ t. pos 1000;
  db_fault = λ t. none;
  rows_broken = λ t. none;
  real_sum = λ a b. pos 18446744073709551616;
  handshake = λ t url. clear;
  parse_url = λ s. some (record { scheme = "http"; host = s; hostname = s; port = "" });
  dial = λ t h. some ("cert" ∷ []);
  json_valid = λ s. true;
  parse_json = λ s. some (other s);
  render_json = λ j. some "json";
  parse_inbounds = λ s. some [];
  render_inbounds = λ l. some "inbounds";
  pem_text = λ s. s;
  json_indent = λ s. some s;
  date_text = λ t. "day";
  node_reply = λ t r. reply 200 "usage";
  decode_usage = λ s. value reported;
  decode_tenant = λ s. eof;
  decode_health = λ s. eof;
  marshal_event = λ e. some e.kind;
  pem_block = λ s. some s;
  sha256_hex = λ s. s;
  hmac_hex = λ k s. k;
  post_webhook = λ t r. answered 200;
  deadline_passed = λ t. false;
}

pub answers : Answers
answers = record { clear = λ t. refl }

abbrev pub customer_row : CustomerRow
customer_row = record {
  id = "c1";
  name = "Ann";
  status = "active";
  external_ref = none;
  created_at = pos 10;
}

abbrev pub plan_row : Plan
plan_row = record {
  id = "p1";
  name = "basic";
  quota_bytes = pos 1000;
  duration_days = pos 30;
  max_users = pos 0;
  created_at = pos 10;
}

abbrev pub node_row : NodeRow
node_row = record {
  id = "n1";
  name = "edge";
  address = "http://10.0.0.1:8090";
  master_key = "master";
  core_key = none;
  cert_pem = none;
  config_json = none;
  host_info = none;
  grpc_port = pos 62050;
  status = "online";
  version = none;
  capacity_score = pos 0;
  last_seen_at = none;
  created_at = pos 10;
}

abbrev pub subscription_row : SubscriptionRow
subscription_row = record {
  id = "s1";
  customer_id = "c1";
  plan_id = some "p1";
  node_id = some "n1";
  node_tenant_id = some "t1";
  sub_token = some "token";
  api_key = some "key";
  status = "active";
  period_id = 1;
  start_at = pos 20;
  end_at = pos 2000;
  quota_bytes = pos 1000;
  used_bytes = pos 100;
  credit_limit_bytes = pos 0;
  notified_threshold = 0;
  created_at = pos 20;
}

abbrev pub consumer : WebhookEndpoint
consumer = record {
  id = "h1";
  url = "http://bot/hook";
  secret = "shh";
  events = "usage.threshold, usage.over_quota";
  status = "active";
}

abbrev pub tables : Db
tables = record {
  shape = record {
    node_columns = some ("grpc_port" ∷ "core_key" ∷ "host_info" ∷ []);
    subscription_columns = some ("sub_token" ∷ "api_key" ∷ []);
    usage = plain;
    rebuilt = none;
    foreign_keys = true;
  };
  customers = customer_row ∷ [];
  plans = plan_row ∷ [];
  nodes = node_row ∷ [];
  subscriptions = subscription_row ∷ [];
  api_keys = [];
  usage_records = [];
  webhook_endpoints = consumer ∷ [];
  webhook_deliveries = [];
}

abbrev pub panel : World
panel = record { db = tables; queue = []; worker = false; sent = []; posted = []; tick = 0 }
