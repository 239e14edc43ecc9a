-- ===== src/DenseLab.antt =====
-- src/rollout_market/observatory/dense_mismatch_lab.py: the report of one dense comparison.
use streams_rollout_market.Prelude.{
  ℕ, ℤ, String, Option, List, [], Time, Float, Floats, Sums, Result, ok, ◌>>=◌, get_or,
}
use streams_rollout_market.Device.{DeviceFingerprint}
use streams_rollout_market.MismatchMetrics.{summarize_logprob_mismatch}

pub record EngineFingerprint : Type 0 where
  pub name : String
  pub version : String
  pub fingerprint : String

pub record DenseMismatchReport : Type 0 where
  pub run_id : String
  pub created_at : Time
  pub model_id : String
  pub checkpoint_digest : String
  pub tokenizer_hash : String
  pub rollout_engine : EngineFingerprint
  pub trainer_engine : EngineFingerprint
  pub precision_class : String
  pub quantization_class : Option String
  pub prompt_id : String
  pub num_policy_tokens : ℕ
  pub delta_logprob_mean : Float
  pub delta_logprob_abs_mean : Float
  pub sequence_log_ratio : Float
  pub ess : Float
  pub second_moment : Float
  pub clipped_fraction : Float
  pub veto_fraction : Float
  pub max_abs_log_ratio : Float
  pub top_1pct_gradient_mass : Float
  pub device : Option DeviceFingerprint
  pub notes : List String

-- The keyword arguments of `compute_dense_mismatch`.
pub record DenseInput : Type 0 where
  pub run_id : String
  pub model_id : String
  pub checkpoint_digest : String
  pub tokenizer_hash : String
  pub rollout_engine : EngineFingerprint
  pub trainer_engine : EngineFingerprint
  pub precision_class : String
  pub prompt_id : String
  pub rollout_logprobs : List Float
  pub trainer_logprobs : List Float
  pub mask : Option (List ℤ)
  pub quantization_class : Option String
  pub clamp : Float
  pub veto_abs_log_ratio : Float
  pub notes : Option (List String)
  pub device : Option DeviceFingerprint

unfoldable pub compute_dense_mismatch :
    Floats → Sums → Time → DenseInput → Result DenseMismatchReport
compute_dense_mismatch fl su clock i = do
  summary ←
      summarize_logprob_mismatch fl su i.rollout_logprobs i.trainer_logprobs i.mask i.clamp
        i.veto_abs_log_ratio
  ok (record {
    run_id = i.run_id;
    created_at = clock;
    model_id = i.model_id;
    checkpoint_digest = i.checkpoint_digest;
    tokenizer_hash = i.tokenizer_hash;
    rollout_engine = i.rollout_engine;
    trainer_engine = i.trainer_engine;
    precision_class = i.precision_class;
    quantization_class = i.quantization_class;
    prompt_id = i.prompt_id;
    num_policy_tokens = summary.num_tokens;
    delta_logprob_mean = summary.delta_logprob_mean;
    delta_logprob_abs_mean = summary.delta_logprob_abs_mean;
    sequence_log_ratio = summary.sequence_log_ratio;
    ess = summary.ess;
    second_moment = summary.second_moment;
    clipped_fraction = summary.clipped_fraction;
    veto_fraction = summary.veto_fraction;
    max_abs_log_ratio = summary.max_abs_log_ratio;
    top_1pct_gradient_mass = summary.top_1pct_gradient_mass;
    device = i.device;
    notes = get_or i.notes [];
  })
