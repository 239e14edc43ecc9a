-- ===== src/Hermes.antt =====
-- The Hermes token pipeline of scripts/live: from agent runs to tokens for the trainer, and from the
-- trainer's log-probabilities to reports.
pub mod Tokens
pub mod Inputs
pub mod Pairing
pub mod Routing
pub mod Windows
pub mod Probes
pub mod Proxy
pub mod Capturing
pub mod Stamping
pub mod Histories
pub mod Extraction
pub mod Turns
pub mod Indexing
pub mod Joining
