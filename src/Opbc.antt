-- ===== src/Opbc.antt =====
-- src/rollout_market/opbc.py: the off-policyness budget. `Report` computes the metrics of a group,
-- `Decide` maps them to a decision.
pub mod Report
pub mod Decide
pub mod Severity
pub mod Notes
