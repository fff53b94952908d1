-- ===== src/Store.antt =====
-- internal/store: the SQLite store, statement by statement. A call is one or more statements,
-- each of which the driver may refuse.
pub mod Table
pub mod Customers
pub mod Plans
pub mod Nodes
pub mod Subscriptions
pub mod History
pub mod Webhooks
pub mod Effects
pub mod Creation
pub mod Updates
pub mod Removals
pub mod Roundtrip
pub mod Quota
pub mod NewNode
pub mod Retention
pub mod Setup
pub mod Intact
pub mod Kept
pub mod Keyed
pub mod CustomerMap
