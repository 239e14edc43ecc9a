-- ===== src/Examples/Pairs.antt =====
-- The payload of a run, its index and its reports at small inputs.
use streams_rollout_market.Hermes.Joining.{
  build-pair_reports, compare_all, IsAnswered, IsComparison,
}
use streams_rollout_market.Hermes.Turns.{
  missing, IsSkipOf, IsEntryOf, turns_of, captured, IsRolloutOf,
}
use streams_rollout_market.DenseLab.{DenseInput}
use streams_rollout_market.Hermes.Indexing.{
  build_rollouts_and_index-IsSameTurn, HasAcceptedTurns, IsSameTurn,
}
use streams_rollout_market.Prelude.{
  ok, ◌≡◌, refl, none, [], All, ◌∷◌, dec_text, some, pos, lookup, Time, List, Each, Dict,
}
use streams_rollout_market.Hermes.Pairing.{pair_reports, trainer_at, TrainerEntry, Labels}
use streams_rollout_market.Hermes.Inputs.{
  build_turn, build_turns, Rollout, build_loop, build_rollouts_and_index, Index,
}
use streams_rollout_market.AgentLab.{new_agent_step, assistants, AgentTrajectory, assistant_steps}
use Prim.Native.Nat.{ℕ}
use streams_rollout_market.Examples.Runs.{run}
use streams_rollout_market.Examples.Data.{texts, floats}
use streams_rollout_market.Examples.Measures.{sums}

abbrev rollouts : List Rollout
rollouts =
    record {
      model = "model";
      trainer_reference = "model";
      prompt_idx = 0;
      prompt_token_ids = pos 1 ∷ [];
      response_token_ids = pos 2 ∷ pos 3 ∷ [];
      task_id = "task";
      assistant_turn_idx = 0;
      trajectory_run_id = "run";
    }
    ∷ []

abbrev index : Index
index = record {
  model_id = some "model";
  precision_class = "bf16";
  entries =
      record {
        prompt_idx = 0;
        task_id = "task";
        trajectory_run_id = "run";
        assistant_turn_idx = 0;
        num_tokens = 2;
        response_logprobs = 4 ∷ 5 ∷ [];
      }
      ∷ [];
  skipped =
      record {
        task_id = "task";
        trajectory_run_id = "run";
        assistant_turn_idx = 1;
        reason = "missing prompt_token_ids or response_token_ids";
      }
      ∷ [];
}

run_built : build_rollouts_and_index (run ∷ []) "bf16" none ≡ ok (rollouts, index)
unfolding build_rollouts_and_index build_loop build_turns build_turn assistant_steps assistants
    dec_text
run_built = refl

run-HasAcceptedTurns : All HasAcceptedTurns (run ∷ [])
unfolding assistant_steps assistants new_agent_step
run-HasAcceptedTurns = ((refl, (refl, tt)), tt)

build_rollouts_and_index-IsSameTurn_example :
    Each IsSameTurn 0 rollouts index.entries
    × Each IsRolloutOf 0 (captured (turns_of (run ∷ []))) rollouts
    × Each IsEntryOf 0 (captured (turns_of (run ∷ []))) index.entries
    × Each IsSkipOf 0 (missing (turns_of (run ∷ []))) index.skipped
build_rollouts_and_index-IsSameTurn_example =
    build_rollouts_and_index-IsSameTurn (run ∷ []) "bf16" none rollouts index run-HasAcceptedTurns
      run_built

abbrev labels : Labels
labels = record { lower = λ s. s; digest = λ s. s }

abbrev trainer_entry : TrainerEntry
trainer_entry = record {
  prompt_idx = pos 0;
  trainer_logprobs = 6 ∷ 7 ∷ [];
  engine = none;
  engine_fingerprint = none;
  sharding = none;
  dtype = none;
  attn_impl = none;
  world_size = none;
}

abbrev runs : Dict AgentTrajectory
runs = ("run", run) ∷ []

run-IsAnswered : All (IsAnswered (trainer_entry ∷ []) runs) rollouts
unfolding trainer_at lookup dec_text
run-IsAnswered = ((trainer_entry, run, refl, refl, refl), tt)

abbrev clocks : ℕ → Time
clocks n = n

build-pair_reports_example :
    (is : List DenseInput) × Each
      (IsComparison texts labels floats sums clocks (trainer_entry ∷ []) runs "bf16" none)
      0
      index.entries
      is
    × (pair_reports texts labels floats sums clocks index (trainer_entry ∷ []) runs "bf16" none
        ≡ compare_all floats sums clocks 0 is)
build-pair_reports_example =
    build-pair_reports texts labels floats sums clocks (run ∷ []) "bf16" none none
      (trainer_entry ∷ []) runs rollouts index run-HasAcceptedTurns run_built run-IsAnswered
