-- ===== src/Broker.antt =====
-- src/rollout_market/worker_broker.py: workers, heartbeats, leases, failures and the audit trail.
-- `State` has the data, `Workers`, `Leasing`, `Closing` and `Reaping` the methods, the other
-- children the proofs. The broker holds the store that it was given.
pub mod State
pub mod Workers
pub mod Leasing
pub mod Closing
pub mod Reaping
pub mod Exclusion
pub mod Cases
pub mod Sweeps
pub mod Steps
pub mod History
pub mod Outcomes
pub mod Reaped
pub mod Acquire
pub mod Idempotency
pub mod Deaths
