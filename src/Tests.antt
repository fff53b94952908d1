-- ===== src/Tests.antt =====
-- A small panel on which the theorems are applied and the definitions are run.
mod Subscriptions
mod Thresholds
mod Handlers
mod Webhooks
mod Access
mod Collector
mod Inbounds
mod Setup
mod Router
mod Running
mod Usage
mod Customers
mod Page
pub mod Fixtures
