-- ===== src/Generated/Answer.antt =====
-- crates/futu/src/generated: the contents of the answers and of the pushes that the Python class
-- reads.
pub mod Market
pub mod Account
pub mod Push
pub mod Trade
pub mod Snapshot
pub mod Derivatives
pub mod Events
pub mod Quotes
