-- ===== src/Contracts/Models.antt =====
-- The pydantic models of contracts.py as records, every field in order. A Python `int` is a ℤ, a
-- `datetime` a `Time`, `X | None` an option.
use streams_rollout_market.Prelude.{ℤ, String, Bool, Option, List, Dict, Float, Time, Json, leb}
use streams_rollout_market.Contracts.Enums.{GroupStatus, RejectionReason, DecisionReason, Action}

pub record PolicyManifest : Type 0 where
  pub policy_version : String
  pub checkpoint_digest : String
  pub tokenizer_hash : String
  pub model_config_hash : String
  pub precision_class : String
  pub quantization_class : Option String
  pub engine_contract_version : String
  pub allowed_engines : List String
  pub parent_version : Option String
  pub patch_digest : Option String
  pub patch_lineage : List String
  pub created_at : Time

pub record WorkerManifest : Type 0 where
  pub worker_id : String
  pub engine_name : String
  pub engine_version : String
  pub engine_contract_version : String
  pub device_type : String
  pub device_count : ℤ
  pub precision_classes : List String
  pub quantization_classes : List String
  pub supported_tokenizer_hashes : List String
  pub max_context_tokens : ℤ
  pub max_concurrent_groups : ℤ
  pub returns_token_ids : Bool
  pub returns_sampled_logprobs : Bool
  pub returns_top_logprobs : Bool
  pub returns_router_logits : Bool
  pub region : Option String
  pub price_hint_per_hour : Option Float
  pub announced_at : Time

pub record RolloutJob : Type 0 where
  pub job_id : String
  pub task_id : String
  pub prompt_id : String
  pub prompt_token_ids : List ℤ
  pub policy_version : String
  pub checkpoint_digest : String
  pub tokenizer_hash : String
  pub sampling_config_hash : String
  pub sampling_config : Dict Json
  pub group_size : ℤ
  pub required_precision_class : String
  pub required_quantization_class : Option String
  pub allowed_engines : List String
  pub max_context_tokens : ℤ
  pub idempotency_key : String
  pub deadline : Option Time
  pub created_at : Time

pub record RolloutLease : Type 0 where
  pub lease_id : String
  pub job_id : String
  pub assignment_id : String
  pub worker_id : String
  pub policy_version : String
  pub required_precision_class : String
  pub required_quantization_class : Option String
  pub max_context_tokens : ℤ
  pub group_size : ℤ
  pub idempotency_key : String
  pub issued_at : Time
  pub expires_at : Time

-- `ref >= self.expires_at`, at the instant that the caller passes or reads.
unfoldable pub is_expired : RolloutLease → Time → Bool
is_expired l now = leb l.expires_at now

pub record WorkerHeartbeat : Type 0 where
  pub worker_id : String
  pub engine_name : String
  pub engine_version : String
  pub device_type : String
  pub precision_classes : List String
  pub max_context_tokens : ℤ
  pub price_hint_per_hour : Option Float
  pub current_policy_version : Option String
  pub healthy : Bool
  pub last_seen_at : Time

pub record Trajectory : Type 0 where
  pub response_token_ids : List ℤ
  pub rollout_logprobs : List Float
  pub action_mask : List ℤ
  pub tool_output_mask : List ℤ
  pub reward : Float
  pub turn_boundaries : List ℤ
  pub metadata : Dict Json

pub record SampleGroup : Type 0 where
  pub group_id : String
  pub task_id : String
  pub prompt_id : String
  pub worker_id : String
  pub assignment_id : String
  pub policy_version : String
  pub checkpoint_digest : String
  pub tokenizer_hash : String
  pub sampling_config_hash : String
  pub engine_name : String
  pub engine_version : String
  pub device_type : String
  pub precision_class : String
  pub quantization_class : Option String
  pub prompt_token_ids : List ℤ
  pub trajectories : List Trajectory
  pub policy_lag_steps : ℤ
  pub wall_clock_seconds : Option Float
  pub sample_hash : Option String
  pub created_at : Time

pub record BudgetReport : Type 0 where
  pub group_id : String
  pub mean_weight : Float
  pub std_weight : Float
  pub second_moment : Float
  pub effective_sample_size : Float
  pub clipped_fraction : Float
  pub veto_fraction : Float
  pub max_abs_log_ratio : Float
  pub policy_lag_steps : ℤ
  pub router_flip_rate : Option Float
  pub notes : List String

pub record GroupDecision : Type 0 where
  pub group_id : String
  pub status : GroupStatus
  pub reason : String
  pub rejection_reason : Option RejectionReason
  pub decision_reasons : List DecisionReason
  pub budget_report : Option BudgetReport
  pub recommended_action : Action
