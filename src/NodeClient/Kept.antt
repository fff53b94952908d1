-- ===== src/NodeClient/Kept.antt =====
-- The calls of internal/nodeclient/client.go leave the tables alone.
use node_panel.Prelude.{ℕ, String, sym, subst, arith}
use node_panel.Schema.{Db}
use node_panel.Wire.{Payload, Decoded, CreateTenantRequest, SetQuotaRequest}
use node_panel.Runtime.{Env}
use node_panel.Runtime.Exec.Keeps.{Keeps, keeps_rules}
use node_panel.NodeClient.{
  Client, exchange, decode_into, health, apply_config, core_start, core_stop, core_restart,
  set_xray_version, update_node_binary, get_config, get_inbounds, provision_tenant, push_quota,
  suspend, resume, reset_period, delete, tenant_usage,
}
use node_panel.NodeClient.Calls.{exchange-Untouched}
use node_panel.NodeClient.Trust.{fetch_cert}

module _ {P : Db → Type 0} ⦃env : Env⦄ where
  exchange-Keeps :
      (c : Client) (method path : String) (p : Payload) → Keeps P (exchange c method path p)
  exchange-Keeps c method path p = record {
    at = λ w h. subst P (sym (exchange-Untouched c method path p w).db) h;
  }

  decode_into-Keeps :
      {A : Type 0} (decode : String → Decoded A) (z : A) (r : ℕ × String)
      → Keeps P (decode_into decode z r)
  decode_into-Keeps decode z r = record { at = λ w h. h }

  ruleset client_rules = (keeps_rules, exchange-Keeps, decode_into-Keeps)

  pub health-Keeps : (c : Client) → Keeps P (health c)
  unfolding health
  health-Keeps c = search client_rules

  pub apply_config-Keeps : (c : Client) (config : String) → Keeps P (apply_config c config)
  unfolding apply_config
  apply_config-Keeps c config = search client_rules

  pub core_start-Keeps : (c : Client) → Keeps P (core_start c)
  unfolding core_start
  core_start-Keeps c = search client_rules

  pub core_stop-Keeps : (c : Client) → Keeps P (core_stop c)
  unfolding core_stop
  core_stop-Keeps c = search client_rules

  pub core_restart-Keeps : (c : Client) → Keeps P (core_restart c)
  unfolding core_restart
  core_restart-Keeps c = search client_rules

  pub set_xray_version-Keeps : (c : Client) (v : String) → Keeps P (set_xray_version c v)
  unfolding set_xray_version
  set_xray_version-Keeps c v = search client_rules

  pub update_node_binary-Keeps : (c : Client) (v : String) → Keeps P (update_node_binary c v)
  unfolding update_node_binary
  update_node_binary-Keeps c v = search client_rules

  pub get_config-Keeps : (c : Client) → Keeps P (get_config c)
  unfolding get_config
  get_config-Keeps c = search client_rules

  pub get_inbounds-Keeps : (c : Client) → Keeps P (get_inbounds c)
  unfolding get_inbounds
  get_inbounds-Keeps c = search client_rules

  pub provision_tenant-Keeps :
      (c : Client) (r : CreateTenantRequest) → Keeps P (provision_tenant c r)
  unfolding provision_tenant
  provision_tenant-Keeps c r = search client_rules

  pub push_quota-Keeps :
      (c : Client) (t : String) (r : SetQuotaRequest) → Keeps P (push_quota c t r)
  unfolding push_quota
  push_quota-Keeps c t r = search client_rules

  pub suspend-Keeps : (c : Client) (t : String) → Keeps P (suspend c t)
  unfolding suspend
  suspend-Keeps c t = search client_rules

  pub resume-Keeps : (c : Client) (t : String) → Keeps P (resume c t)
  unfolding resume
  resume-Keeps c t = search client_rules

  pub reset_period-Keeps : (c : Client) (t : String) → Keeps P (reset_period c t)
  unfolding reset_period
  reset_period-Keeps c t = search client_rules

  pub delete-Keeps : (c : Client) (t : String) → Keeps P (delete c t)
  unfolding delete
  delete-Keeps c t = search client_rules

  pub tenant_usage-Keeps : (c : Client) (t : String) → Keeps P (tenant_usage c t)
  unfolding tenant_usage
  tenant_usage-Keeps c t = search client_rules

  pub fetch_cert-Keeps : (address : String) → Keeps P (fetch_cert address)
  unfolding fetch_cert
  fetch_cert-Keeps address = record { at = λ w h. ground (arith, h) }

pub ruleset client_calls = (
  health-Keeps, apply_config-Keeps, core_start-Keeps, core_stop-Keeps, core_restart-Keeps,
  set_xray_version-Keeps, update_node_binary-Keeps, get_config-Keeps, get_inbounds-Keeps,
  provision_tenant-Keeps, push_quota-Keeps, suspend-Keeps, resume-Keeps, reset_period-Keeps,
  delete-Keeps, tenant_usage-Keeps, fetch_cert-Keeps,
)
