-- ===== src/Api.antt =====
-- internal/api: the HTTP handlers, each a call that ends with the response it writes, and the
-- usage collector.
pub mod Response
pub mod Threshold
pub mod Events
pub mod Subscriptions
pub mod Quota
pub mod Lifecycle
pub mod Nodes
pub mod Catalogue
pub mod Access
pub mod Inbounds
pub mod Connection
pub mod Page
pub mod Decode
pub mod Router
pub mod Kept
pub mod Collector
