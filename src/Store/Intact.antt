-- ===== src/Store/Intact.antt =====
-- The integrity of the panel's tables: keys are unique, and what a row refers to is there.
pub mod Keys
pub mod Rows
pub mod Inserted
pub mod Removed
pub mod Changed
pub mod Opened
use node_panel.Prelude.{String, some, List, [], ◌∷◌, Bool, true, false, ◌≡◌, ◌==◌, any, All}
use node_panel.Schema.{Db}
use node_panel.Store.Table.{references}

-- No key stands in two rows.
abbrev pub Unique {ℓ} : {A : Type ℓ} → (A → String) → List A → Type 0
Unique key [] = Unit
Unique key (x ∷ xs) = (any (λ y. key y == key x) xs ≡ false) × Unique key xs

pub record Intact (db : Db) : Type 0 where
  pub enforced : db.shape.foreign_keys ≡ true
  pub customers : Unique (λ r. r.id) db.customers
  pub plans : Unique (λ r. r.id) db.plans
  pub nodes : Unique (λ r. r.id) db.nodes
  pub subscriptions : Unique (λ r. r.id) db.subscriptions
  pub api_keys : Unique (λ r. r.id) db.api_keys
  pub usage_records : Unique (λ r. r.id) db.usage_records
  pub endpoints : Unique (λ r. r.id) db.webhook_endpoints
  pub deliveries : Unique (λ r. r.id) db.webhook_deliveries
  pub owned :
      All (λ s. references (λ c. c.id) db.customers (some s.customer_id) ≡ true) db.subscriptions
  pub planned : All (λ s. references (λ p. p.id) db.plans s.plan_id ≡ true) db.subscriptions
  pub placed : All (λ s. references (λ n. n.id) db.nodes s.node_id ≡ true) db.subscriptions
  pub keyed : All (λ k. references (λ c. c.id) db.customers (some k.customer_id) ≡ true) db.api_keys
  pub addressed :
      All
        (λ d. references (λ e. e.id) db.webhook_endpoints (some d.endpoint_id) ≡ true)
        db.webhook_deliveries
