-- ===== src/Api/Kept.antt =====
-- The handlers of internal/api and the integrity of the tables.
pub mod Rules
pub mod Simple
pub mod Sales
pub mod Running
pub mod Requests
