-- ===== src/Examples.antt =====
-- The theorems at concrete inputs.
pub mod Data
pub mod Stores
pub mod Brokers
pub mod Groups
pub mod Reloads
pub mod Clients
pub mod Simulated
pub mod Measures
pub mod Runs
pub mod Pairs
pub mod Probed
