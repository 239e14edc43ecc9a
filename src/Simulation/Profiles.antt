-- ===== src/Simulation/Profiles.antt =====
-- The workers' profiles, the fixed contracts and the groups of marketplace_simulation.py.
use streams_rollout_market.Prelude.{
  zero, suc, pos_part, if◌then◌else◌, Json, ◌∷◌, ◌>>=◌, ◌<>◌, suc, false, ℤ, true, pos, none, [],
  Result, Time, String, List, Floats, Float, Bool, ℕ,
}
use streams_rollout_market.Contracts.{
  WorkerManifest, RolloutJob, PolicyManifest, RolloutLease, SampleGroup, Trajectory, new_trajectory,
  new_sample_group,
}

pub data WorkerProfile : Type 0 where
  honest noisy stale toxic_tokenizer toxic_precision toxic_no_logprobs toxic_version_drift :
      WorkerProfile

unfoldable pub profile_value : WorkerProfile → String
profile_value honest = "honest"
profile_value noisy = "noisy"
profile_value stale = "stale"
profile_value toxic_tokenizer = "toxic_tokenizer"
profile_value toxic_precision = "toxic_precision"
profile_value toxic_no_logprobs = "toxic_no_logprobs"
profile_value toxic_version_drift = "toxic_version_drift"

-- `f"{n:04d}"`, and `f"{n:02d}"`
pub record Padding : Type 0 where
  pub four : ℕ → String
  pub two : ℕ → String

unfoldable pub manifest : String → Time → WorkerManifest
manifest worker_id clock = record {
  worker_id = worker_id;
  engine_name = "vllm";
  engine_version = "0.6.0";
  engine_contract_version = "v0";
  device_type = "L40S";
  device_count = pos 1;
  precision_classes = "bf16" ∷ [];
  quantization_classes = [];
  supported_tokenizer_hashes = "tok-honest" ∷ [];
  max_context_tokens = pos 8192;
  max_concurrent_groups = pos 1;
  returns_token_ids = true;
  returns_sampled_logprobs = true;
  returns_top_logprobs = false;
  returns_router_logits = false;
  region = none;
  price_hint_per_hour = none;
  announced_at = clock;
}

abbrev pub prompt_tokens : List ℤ
prompt_tokens = pos 101 ∷ pos 202 ∷ pos 303 ∷ pos 404 ∷ []

unfoldable pub job : Floats → Padding → ℕ → Time → RolloutJob
job fl pad idx clock = record {
  job_id = "job-" <> pad.four idx;
  task_id = "sim-task";
  prompt_id = "prompt-" <> pad.four idx;
  prompt_token_ids = prompt_tokens;
  policy_version = "v0001";
  checkpoint_digest = "sha256:sim-ckpt";
  tokenizer_hash = "tok-honest";
  sampling_config_hash = "smp-v1";
  sampling_config =
      ("temperature", Json.float (fl.literal 7 1)) ∷ ("max_tokens", Json.int (pos 64)) ∷ [];
  group_size = pos 2;
  required_precision_class = "bf16";
  required_quantization_class = none;
  allowed_engines = "vllm" ∷ [];
  max_context_tokens = pos 4096;
  idempotency_key = "idem-" <> pad.four idx;
  deadline = none;
  created_at = clock;
}

unfoldable pub policy_manifest : Time → PolicyManifest
policy_manifest clock = record {
  policy_version = "v0001";
  checkpoint_digest = "sha256:sim-ckpt";
  tokenizer_hash = "tok-honest";
  model_config_hash = "cfg-sim";
  precision_class = "bf16";
  quantization_class = none;
  engine_contract_version = "v0";
  allowed_engines = [];
  parent_version = none;
  patch_digest = none;
  patch_lineage = [];
  created_at = clock;
}

-- Three draws of `rng.uniform(-0.02, 0.02)`, which the honest profile and some toxic ones use.
pub record Draws : Type 0 where
  pub first : Float
  pub second : Float
  pub third : Float

module _ (fl : Floats) where
  unfoldable pub rollout_logprobs : WorkerProfile → Draws → List Float
  rollout_logprobs noisy draws =
      fl.negate (fl.literal 4 1) ∷ fl.negate (fl.literal 3 1) ∷ fl.negate (fl.literal 250 1) ∷ []
  rollout_logprobs stale draws =
      fl.negate (fl.literal 4 1) ∷ fl.negate (fl.literal 3 1) ∷ fl.negate (fl.literal 5 1) ∷ []
  rollout_logprobs toxic_no_logprobs draws = fl.literal 0 0 ∷ fl.literal 0 0 ∷ fl.literal 0 0 ∷ []
  rollout_logprobs _ draws =
      fl.plus (fl.negate (fl.literal 4 1)) draws.first
      ∷ fl.plus (fl.negate (fl.literal 3 1)) draws.second
      ∷ fl.plus (fl.negate (fl.literal 5 1)) draws.third
      ∷ []

  abbrev pub trajectory_with : List Float → Trajectory
  trajectory_with logprobs = record {
    response_token_ids = pos 10 ∷ pos 11 ∷ pos 12 ∷ [];
    rollout_logprobs = logprobs;
    action_mask = pos 1 ∷ pos 1 ∷ pos 1 ∷ [];
    tool_output_mask = pos 0 ∷ pos 0 ∷ pos 0 ∷ [];
    reward = fl.literal 10 1;
    turn_boundaries = [];
    metadata = [];
  }

-- `[x for _ in range(n)]`
abbrev pub repeat_times {ℓ} : {A : Type ℓ} → ℕ → A → List A
repeat_times zero x = []
repeat_times (suc n) x = x ∷ repeat_times n x

abbrev pub is_toxic_tokenizer : WorkerProfile → Bool
is_toxic_tokenizer toxic_tokenizer = true
is_toxic_tokenizer _ = false

abbrev pub is_toxic_precision : WorkerProfile → Bool
is_toxic_precision toxic_precision = true
is_toxic_precision _ = false

abbrev pub is_toxic_version_drift : WorkerProfile → Bool
is_toxic_version_drift toxic_version_drift = true
is_toxic_version_drift _ = false

abbrev pub is_stale : WorkerProfile → Bool
is_stale stale = true
is_stale _ = false

module _ (fl : Floats) where
  unfoldable pub group_of : RolloutLease → WorkerProfile → Trajectory → Time → SampleGroup
  group_of lease profile trajectory clock = record {
    group_id = "g-" <> lease.lease_id;
    task_id = "sim-task";
    prompt_id = lease.job_id;
    worker_id = lease.worker_id;
    assignment_id = lease.assignment_id;
    policy_version = if is_toxic_version_drift profile then "v9999" else lease.policy_version;
    checkpoint_digest = "sha256:sim-ckpt";
    tokenizer_hash = if is_toxic_tokenizer profile then "tok-INVALID" else "tok-honest";
    sampling_config_hash = "smp-v1";
    engine_name = "vllm";
    engine_version = "0.6.0";
    device_type = "L40S";
    precision_class = if is_toxic_precision profile then "fp16" else lease.required_precision_class;
    quantization_class = none;
    prompt_token_ids = prompt_tokens;
    trajectories = repeat_times (pos_part lease.group_size) trajectory;
    policy_lag_steps = if is_stale profile then pos 12 else pos 1;
    wall_clock_seconds = none;
    sample_hash = none;
    created_at = clock;
  }

  -- The trajectories are all the same one, which pydantic checks.
  unfoldable pub make_group : RolloutLease → WorkerProfile → Draws → Time → Result SampleGroup
  unfolding rollout_logprobs group_of
  make_group lease profile draws clock = do
    trajectory ← new_trajectory (trajectory_with fl (rollout_logprobs fl profile draws))
    new_sample_group (group_of lease profile trajectory clock)
