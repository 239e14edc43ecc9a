-- ===== src/Examples/Data.antt =====
-- A small policy, worker, job, group and decision for the examples.
use streams_rollout_market.Prelude.{
  pos, true, false, none, [], ◌∷◌, ltb, leb, nat_eq, ◌+◌, Texts, Floats,
}
use streams_rollout_market.Contracts.{
  PolicyManifest, WorkerManifest, RolloutJob, RolloutLease, Trajectory, SampleGroup, BudgetReport,
  GroupDecision, accepted, train,
}

-- Texts without blanks.
abbrev pub texts : Texts
texts = record {
  strip = λ s. s;
  repr = λ s. s;
  repr_opt = λ o. "";
  isoformat = λ t. "";
  str_int = λ n. "";
  seconds = λ t. "";
}

-- Numbers for the fractional values, which the examples only compare.
abbrev pub floats : Floats
floats = record {
  literal = λ m d. m;
  of_nat = λ n. n;
  lt = ltb;
  le = leb;
  eq = nat_eq;
  plus = λ a b. a + b;
  minus = λ a b. a;
  times = λ a b. a;
  divide = λ a b. a;
  negate = λ a. a;
  absolute = λ a. a;
  exponential = λ a. a;
  clip = λ a lo hi. a;
  total = λ xs. 0;
  mean = λ xs. 0;
  std = λ xs. 0;
  largest = λ xs. 0;
}

abbrev pub manifest : PolicyManifest
manifest = record {
  policy_version = "p1";
  checkpoint_digest = "c1";
  tokenizer_hash = "t1";
  model_config_hash = "m1";
  precision_class = "bf16";
  quantization_class = none;
  engine_contract_version = "1";
  allowed_engines = [];
  parent_version = none;
  patch_digest = none;
  patch_lineage = [];
  created_at = 0;
}

abbrev pub worker : WorkerManifest
worker = record {
  worker_id = "w";
  engine_name = "vllm";
  engine_version = "1";
  engine_contract_version = "1";
  device_type = "gpu";
  device_count = pos 1;
  precision_classes = "bf16" ∷ [];
  quantization_classes = [];
  supported_tokenizer_hashes = [];
  max_context_tokens = pos 64;
  max_concurrent_groups = pos 1;
  returns_token_ids = true;
  returns_sampled_logprobs = true;
  returns_top_logprobs = false;
  returns_router_logits = false;
  region = none;
  price_hint_per_hour = none;
  announced_at = 0;
}

abbrev pub job : RolloutJob
job = record {
  job_id = "j";
  task_id = "task";
  prompt_id = "prompt";
  prompt_token_ids = pos 1 ∷ [];
  policy_version = "p1";
  checkpoint_digest = "c1";
  tokenizer_hash = "t1";
  sampling_config_hash = "s1";
  sampling_config = [];
  group_size = pos 1;
  required_precision_class = "bf16";
  required_quantization_class = none;
  allowed_engines = "vllm" ∷ [];
  max_context_tokens = pos 32;
  idempotency_key = "key";
  deadline = none;
  created_at = 0;
}

abbrev pub lease : RolloutLease
lease = record {
  lease_id = "lease-1";
  job_id = "j";
  assignment_id = "assign-1";
  worker_id = "w";
  policy_version = "p1";
  required_precision_class = "bf16";
  required_quantization_class = none;
  max_context_tokens = pos 32;
  group_size = pos 1;
  idempotency_key = "key";
  issued_at = 5;
  expires_at = 105;
}

abbrev pub trajectory : Trajectory
trajectory = record {
  response_token_ids = pos 7 ∷ [];
  rollout_logprobs = 3 ∷ [];
  action_mask = pos 1 ∷ [];
  tool_output_mask = pos 0 ∷ [];
  reward = 1;
  turn_boundaries = [];
  metadata = [];
}

abbrev pub group : SampleGroup
group = record {
  group_id = "g";
  task_id = "task";
  prompt_id = "prompt";
  worker_id = "w";
  assignment_id = "assign-1";
  policy_version = "p1";
  checkpoint_digest = "c1";
  tokenizer_hash = "t1";
  sampling_config_hash = "s1";
  engine_name = "vllm";
  engine_version = "1";
  device_type = "gpu";
  precision_class = "bf16";
  quantization_class = none;
  prompt_token_ids = pos 1 ∷ [];
  trajectories = trajectory ∷ [];
  policy_lag_steps = pos 0;
  wall_clock_seconds = none;
  sample_hash = none;
  created_at = 6;
}

abbrev pub decision : GroupDecision
decision = record {
  group_id = "g";
  status = accepted;
  reason = "within budget";
  rejection_reason = none;
  decision_reasons = [];
  budget_report = none;
  recommended_action = train;
}

abbrev pub report : BudgetReport
report = record {
  group_id = "g";
  mean_weight = 1;
  std_weight = 0;
  second_moment = 1;
  effective_sample_size = 9;
  clipped_fraction = 0;
  veto_fraction = 0;
  max_abs_log_ratio = 0;
  policy_lag_steps = pos 0;
  router_flip_rate = none;
  notes = [];
}
