-- ===== src/Contracts/Enums.antt =====
-- The enumerations of contracts.py.
use streams_rollout_market.Prelude.{String, Bool, true, false}

pub data GroupStatus : Type 0 where
  pending accepted correctable quarantined rejected : GroupStatus

-- `==` on statuses.
unfoldable pub status_eq : GroupStatus → GroupStatus → Bool
status_eq pending pending = true
status_eq accepted accepted = true
status_eq correctable correctable = true
status_eq quarantined quarantined = true
status_eq rejected rejected = true
status_eq _ _ = false

pub data RejectionReason : Type 0 where
  mixed_policy_version policy_version_mismatch checkpoint_mismatch : RejectionReason
  tokenizer_mismatch precision_mismatch quantization_mismatch : RejectionReason
  missing_token_ids missing_logprobs group_size_mismatch : RejectionReason
  idempotency_key_mismatch expired_lease context_overflow : RejectionReason

pub data DecisionReason : Type 0 where
  within_budget high_clipped_fraction low_ess replay_tier_lag : DecisionReason
  replay_tier_ess stale_policy_lag veto_threshold_exceeded : DecisionReason
  high_router_flip_rate : DecisionReason

-- `r.value`
unfoldable pub reason_value : DecisionReason → String
reason_value within_budget = "within_budget"
reason_value high_clipped_fraction = "high_clipped_fraction"
reason_value low_ess = "low_ess"
reason_value replay_tier_lag = "replay_tier_lag"
reason_value replay_tier_ess = "replay_tier_ess"
reason_value stale_policy_lag = "stale_policy_lag"
reason_value veto_threshold_exceeded = "veto_threshold_exceeded"
reason_value high_router_flip_rate = "high_router_flip_rate"

-- The literals of `recommended_action`.
pub data Action : Type 0 where
  train train_with_correction replay quarantine reject : Action
