-- ===== src/Trade.antt =====
-- crates/futu/src/trade: the trade requests.
pub mod Account
pub mod Order
pub mod Query
pub mod Push
