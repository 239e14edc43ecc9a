-- ===== src/Simulation.antt =====
-- src/rollout_market/observatory/marketplace_simulation.py: synthetic workers, honest and toxic,
-- that drive the broker, the validators and the budget. `Profiles` makes their groups, `Rounds` runs
-- them.
pub mod Profiles
pub mod Rounds
pub mod Samples
pub mod Verdicts
pub mod Drift
pub mod Leases
pub mod Scoring
pub mod Submitting
pub mod Stored
pub mod Stale
