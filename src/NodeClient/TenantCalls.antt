-- ===== src/NodeClient/TenantCalls.antt =====
-- The calls of internal/nodeclient/client.go on a tenant that exists: they leave the panel's own
-- state alone, and one that succeeds was answered by the node.
use node_panel.Prelude.{String, ◌≡◌, ◌⊎◌, [], ◌∷◌, ◌++◌, arith}
use node_panel.Prelude.Text.{◌<>◌}
use node_panel.Wire.{NodeRequest, nothing, set_quota, SetQuotaRequest, TenantView}
use node_panel.Runtime.{Env, World}
use node_panel.Runtime.Exec.{ok}
use node_panel.NodeClient.{Client, request_of, suspend, resume, reset_period, push_quota}
use node_panel.NodeClient.Calls.{Untouched, Delivered}

module _ ⦃env : Env⦄ where
  abbrev pub tenant_post : Client → String → String → NodeRequest
  tenant_post c t action = request_of c "POST" ("/admin/tenants/" <> t <> action) nothing

  abbrev pub quota_request : Client → String → SetQuotaRequest → NodeRequest
  quota_request c t q = request_of c "PATCH" ("/admin/tenants/" <> t <> "/quota") (set_quota q)

  module _ (c : Client) (t : String) (w : World) where
    pub suspend-Untouched : Untouched w (suspend c t w).1
    unfolding suspend
    suspend-Untouched = ground arith

    pub suspend-Delivered :
        (suspend c t w).0 ≡ ok tt → Delivered (tenant_post c t "/suspend") w (suspend c t w).1
    unfolding suspend
    suspend-Delivered h = ground arith

    pub resume-Untouched : Untouched w (resume c t w).1
    unfolding resume
    resume-Untouched = ground arith

    pub resume-Delivered :
        (resume c t w).0 ≡ ok tt → Delivered (tenant_post c t "/resume") w (resume c t w).1
    unfolding resume
    resume-Delivered h = ground arith

    pub reset_period-Untouched : Untouched w (reset_period c t w).1
    unfolding reset_period
    reset_period-Untouched = ground arith

    pub reset_period-Delivered :
        (reset_period c t w).0 ≡ ok tt
        → Delivered (tenant_post c t "/reset") w (reset_period c t w).1
    unfolding reset_period
    reset_period-Delivered h = ground arith

    pub push_quota-Untouched : (q : SetQuotaRequest) → Untouched w (push_quota c t q w).1
    unfolding push_quota
    push_quota-Untouched q = ground arith

    pub push_quota-Delivered :
        (q : SetQuotaRequest) {v : TenantView}
        → (push_quota c t q w).0 ≡ ok v
        → Delivered (quota_request c t q) w (push_quota c t q w).1
    unfolding push_quota
    push_quota-Delivered q h = ground arith

    -- A resumption sends its one request, or nothing.
    pub sent-resume :
        ((resume c t w).1.sent ≡ w.sent)
        ⊎ ((resume c t w).1.sent
            ≡ w.sent ++ record { at = w.tick; request = tenant_post c t "/resume" } ∷ [])
    unfolding resume
    sent-resume = ground arith
