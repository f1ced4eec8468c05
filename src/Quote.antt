-- ===== src/Quote.antt =====
-- crates/futu/src/quote: the quote requests.
pub mod Subscribe
pub mod History
pub mod Snapshot
