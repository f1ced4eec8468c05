-- ===== src/Quote/Snapshot.antt =====
-- crates/futu/src/quote/snapshot.rs
pub mod Market
pub mod Reference
pub mod Lists
