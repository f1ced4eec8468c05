-- ===== src/Tests.antt =====
-- The theorems at concrete inputs: samples of the parameters, and one module for each part.
pub mod Samples
pub mod Framing
pub mod Calls
pub mod Sessions
pub mod Channels
pub mod Orders
pub mod Turns
pub mod Methods
pub mod Answers
pub mod Trading
