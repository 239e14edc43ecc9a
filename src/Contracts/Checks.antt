-- ===== src/Contracts/Checks.antt =====
-- The validators of contracts.py. Building a model returns it, or raises pydantic's
-- ValidationError; the field validators run first, then the model validator.
use streams_rollout_market.Prelude.{
  ℤ, pos, ltb_ℤ, String, Bool, true, false, not, ◌&&◌, ◌||◌, Option, none, some, List, [], ◌∷◌,
  Time, Texts, ◌==◌, leb, nat_eq, length, is_none, is_some, Result, ok, raise_if, ◌>>◌,
  validation_error,
}
use streams_rollout_market.Contracts.Enums.{rejected, status_eq}
use streams_rollout_market.Contracts.Models.{
  PolicyManifest, WorkerManifest, RolloutJob, RolloutLease, Trajectory, SampleGroup, GroupDecision,
}

-- `not value or not value.strip()` is the failure.
unfoldable pub non_empty : Texts → String → Bool
non_empty py value = not (value == "" || py.strip value == "")

unfoldable pub all_non_empty : Texts → List String → Bool
all_non_empty py [] = true
all_non_empty py (value ∷ rest) = non_empty py value && all_non_empty py rest

abbrev is_empty {ℓ} : {A : Type ℓ} → List A → Bool
is_empty [] = true
is_empty (x ∷ xs) = false

-- `value <= 0`
abbrev not_positive : ℤ → Bool
not_positive value = ltb_ℤ value (pos 1)

unfoldable pub new_policy_manifest : Texts → PolicyManifest → Result PolicyManifest
unfolding all_non_empty
new_policy_manifest py m = do
  raise_if
      (not (
        all_non_empty py
          (m.policy_version ∷ m.checkpoint_digest ∷ m.tokenizer_hash ∷ m.model_config_hash ∷ [])))
      validation_error
  ok m

unfoldable pub new_worker_manifest : Texts → WorkerManifest → Result WorkerManifest
unfolding all_non_empty
new_worker_manifest py m = do
  raise_if
      (not (all_non_empty py (m.worker_id ∷ m.engine_name ∷ m.engine_version ∷ m.device_type ∷ [])))
      validation_error
  raise_if (is_empty m.precision_classes) validation_error
  raise_if (not_positive m.max_context_tokens) validation_error
  raise_if (not_positive m.device_count) validation_error
  raise_if (not_positive m.max_concurrent_groups) validation_error
  ok m

-- `self.deadline is not None and self.deadline <= self.created_at`
deadline_passed : Option Time → Time → Bool
deadline_passed none created_at = false
deadline_passed (some deadline) created_at = leb deadline created_at

unfoldable pub new_rollout_job : Texts → RolloutJob → Result RolloutJob
unfolding all_non_empty deadline_passed
new_rollout_job py j = do
  raise_if
      (not (
        all_non_empty py (
          j.job_id ∷ j.task_id ∷ j.prompt_id ∷ j.policy_version ∷ j.checkpoint_digest
          ∷ j.tokenizer_hash ∷ j.sampling_config_hash ∷ j.required_precision_class
          ∷ j.idempotency_key ∷ [])))
      validation_error
  raise_if (ltb_ℤ j.group_size (pos 1)) validation_error
  raise_if (not_positive j.max_context_tokens) validation_error
  raise_if (is_empty j.prompt_token_ids) validation_error
  raise_if (deadline_passed j.deadline j.created_at) validation_error
  ok j

unfoldable pub new_rollout_lease : Texts → RolloutLease → Result RolloutLease
unfolding all_non_empty
new_rollout_lease py l = do
  raise_if
      (not (
        all_non_empty py (
          l.lease_id ∷ l.job_id ∷ l.assignment_id ∷ l.worker_id ∷ l.policy_version
          ∷ l.required_precision_class ∷ l.idempotency_key ∷ [])))
      validation_error
  raise_if (ltb_ℤ l.group_size (pos 1)) validation_error
  raise_if (not_positive l.max_context_tokens) validation_error
  raise_if (leb l.expires_at l.issued_at) validation_error
  ok l

unfoldable pub new_trajectory : Trajectory → Result Trajectory
new_trajectory t = do
  let n = length t.response_token_ids
  raise_if (not (nat_eq (length t.rollout_logprobs) n)) validation_error
  raise_if (not (nat_eq (length t.action_mask) n)) validation_error
  raise_if (not (nat_eq (length t.tool_output_mask) n)) validation_error
  ok t

unfoldable pub new_sample_group : SampleGroup → Result SampleGroup
new_sample_group g = do
  raise_if (is_empty g.trajectories) validation_error
  raise_if (ltb_ℤ g.policy_lag_steps (pos 0)) validation_error
  ok g

unfoldable pub new_group_decision : GroupDecision → Result GroupDecision
unfolding status_eq
new_group_decision d = do
  raise_if (status_eq d.status rejected && is_none d.rejection_reason) validation_error
  raise_if (not (status_eq d.status rejected) && is_some d.rejection_reason) validation_error
  raise_if (status_eq d.status rejected && not (is_empty d.decision_reasons)) validation_error
  ok d
