-- ===== src/Contracts.antt =====
-- src/rollout_market/contracts.py: the schemas. `Enums` has the enumerations, `Models` the pydantic
-- models as records, `Checks` the validators that pydantic runs when a model is built.
mod Enums
mod Models
mod Checks
pub use Enums.{
  GroupStatus, pending, accepted, correctable, quarantined, rejected, RejectionReason,
  mixed_policy_version, policy_version_mismatch, checkpoint_mismatch, tokenizer_mismatch,
  precision_mismatch, quantization_mismatch, missing_token_ids, missing_logprobs,
  group_size_mismatch, idempotency_key_mismatch, expired_lease, context_overflow, DecisionReason,
  within_budget, high_clipped_fraction, low_ess, replay_tier_lag, replay_tier_ess, stale_policy_lag,
  veto_threshold_exceeded, high_router_flip_rate, Action, train, train_with_correction, replay,
  quarantine, reject,
}
unfoldable pub use Enums.{status_eq, reason_value}
pub use Models.{
  PolicyManifest, WorkerManifest, RolloutJob, RolloutLease, WorkerHeartbeat, Trajectory,
  SampleGroup, BudgetReport, GroupDecision,
}
unfoldable pub use Models.{is_expired}
unfoldable pub use Checks.{
  non_empty, all_non_empty, new_policy_manifest, new_worker_manifest, new_rollout_job,
  new_rollout_lease, new_trajectory, new_sample_group, new_group_decision,
}
