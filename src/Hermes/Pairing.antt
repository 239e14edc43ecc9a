-- ===== src/Hermes/Pairing.antt =====
-- scripts/live/pair_hermes_dense_reports.py: the trainer's log-probabilities against the captured ones.
use streams_rollout_market.Prelude.{
  lookup, length, nat_eq, ◌+◌, not, ◌>>=◌, value_error, raise, ok, Result, Dict, ◌==◌, eq_ℤ, Time,
  pos, if◌then◌else◌, Sums, Float, ◌<>◌, get_or, List, Floats, ℤ, Texts, String, Option, [], ◌∷◌, ℕ,
  none, some,
}
use streams_rollout_market.AgentLab.{AgentTrajectory}
use streams_rollout_market.DenseLab.{
  EngineFingerprint, DenseMismatchReport, DenseInput, compute_dense_mismatch,
}
use streams_rollout_market.Hermes.Inputs.{IndexEntry, Index}

-- One entry of the trainer's output, with the keys that the script reads; `engine_fingerprint` is none
-- also where it is no text.
pub record TrainerEntry : Type 0 where
  pub prompt_idx : ℤ
  pub trainer_logprobs : List Float
  pub engine : Option String
  pub engine_fingerprint : Option String
  pub sharding : Option String
  pub dtype : Option String
  pub attn_impl : Option String
  -- the value as an f-string prints it
  pub world_size : Option String

-- `str.lower`, and the first 16 digits of `sha256(text.encode("utf-8")).hexdigest()`
pub record Labels : Type 0 where
  pub lower : String → String
  pub digest : String → String

unfoldable pub trainer_engine_from_entry : Labels → TrainerEntry → EngineFingerprint
trainer_engine_from_entry lb e = record {
  name = engine_name;
  version = "torch-2.4";
  fingerprint = elim (e.engine_fingerprint) [
    | none ↦ derived
    | some explicit ↦ if explicit == "" then derived else explicit
  ];
}
  where
    engine_name : String
    engine_name = get_or e.engine "fsdp"

    derived : String
    derived =
        "sha256:"
        <> engine_name
        <> "-"
        <> lb.lower (get_or e.sharding "FULL_SHARD")
        <> "-"
        <> get_or e.dtype "bfloat16"
        <> "-"
        <> get_or e.attn_impl "sdpa"
        <> "-ws"
        <> get_or e.world_size "?"

unfoldable pub tokenizer_hash_for : Labels → String → String
tokenizer_hash_for lb model_id = "sha256:" <> lb.digest model_id

-- `{t["prompt_idx"]: t for t in trainers}.get(idx)`: a later entry replaces an earlier one.
unfoldable pub trainer_at : ℤ → List TrainerEntry → Option TrainerEntry
trainer_at idx [] = none
trainer_at idx (t ∷ ts) =
    let later = trainer_at idx ts in
    elim later [ some found ↦ some found | none ↦ if eq_ℤ t.prompt_idx idx then some t else none ]

abbrev pub relabelled : Option String → EngineFingerprint → EngineFingerprint
relabelled none engine = engine
relabelled (some label) engine = record engine { name = label }

module _ (py : Texts) (lb : Labels) (fl : Floats) where
  -- The arguments of `compute_dense_mismatch` for one entry.
  unfoldable pub dense_input :
      IndexEntry → TrainerEntry → AgentTrajectory → String → Option String → DenseInput
  unfolding trainer_engine_from_entry tokenizer_hash_for
  dense_input e t trajectory precision_class label =
      let trainer_engine = relabelled label (trainer_engine_from_entry lb t) in
      let turn = py.str_int (pos e.assistant_turn_idx) in
      let prompt_id = e.task_id <> "-turn" <> turn in
      record {
        run_id =
            trajectory.rollout_engine.name <> "-vs-" <> trainer_engine.name <> "-" <> prompt_id;
        model_id = trajectory.model_id;
        checkpoint_digest = tokenizer_hash_for lb trajectory.model_id;
        tokenizer_hash = tokenizer_hash_for lb trajectory.model_id;
        rollout_engine = trajectory.rollout_engine;
        trainer_engine = trainer_engine;
        precision_class = precision_class;
        prompt_id = prompt_id;
        rollout_logprobs = e.response_logprobs;
        trainer_logprobs = t.trainer_logprobs;
        mask = none;
        quantization_class = none;
        clamp = fl.literal 200 1;
        veto_abs_log_ratio = fl.literal 300 1;
        notes = some (
            ("hermes-agent dense pair: trajectory_run_id="
              <> py.repr e.trajectory_run_id
              <> ", assistant_turn_idx="
              <> turn)
            ∷ []);
        device = none;
      }

-- `clocks` is the instant at each report's number.
module _ (py : Texts) (lb : Labels) (fl : Floats) (su : Sums) (clocks : ℕ → Time) where
  -- The body of the loop.
  unfoldable pub pair_entry :
      List TrainerEntry
      → Dict AgentTrajectory
      → String
      → Option String
      → ℕ
      → IndexEntry
      → Result DenseMismatchReport
  unfolding trainer_at dense_input
  pair_entry trainers trajectories precision_class label n e =
      elim (trainer_at (pos e.prompt_idx) trainers) [
        | none ↦ raise value_error
        | some t ↦
            if not (nat_eq (length t.trainer_logprobs) (length e.response_logprobs))
            then raise value_error
            else elim (lookup e.trajectory_run_id trajectories) [
              | none ↦ raise value_error
              | some trajectory ↦
                  compute_dense_mismatch fl su (clocks n)
                    (dense_input py lb fl e t trajectory precision_class label)
            ]
      ]

  unfoldable pub pair_loop :
      List TrainerEntry
      → Dict AgentTrajectory
      → String
      → Option String
      → ℕ
      → List IndexEntry
      → Result (List DenseMismatchReport)
  unfolding pair_entry
  pair_loop trainers trajectories precision_class label n [] = ok []
  pair_loop trainers trajectories precision_class label n (e ∷ es) = do
    report ← pair_entry trainers trajectories precision_class label n e
    rest ← pair_loop trainers trajectories precision_class label (n + 1) es
    ok (report ∷ rest)

  unfoldable pub pair_reports :
      Index
      → List TrainerEntry
      → Dict AgentTrajectory
      → String
      → Option String
      → Result (List DenseMismatchReport)
  unfolding pair_loop
  pair_reports index trainers trajectories precision_class label =
      pair_loop trainers trajectories precision_class label 0 index.entries
