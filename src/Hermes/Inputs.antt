-- ===== src/Hermes/Inputs.antt =====
-- scripts/live/build_hermes_dense_input.py: the captured turns of all runs, numbered for the trainer.
use streams_rollout_market.Prelude.{
  value_error, none, some, is_none, ◌&&◌, ◌!=◌, raise_if, get_or, ◌>>◌, ◌>>=◌, ok, length, ◌+◌,
  ◌++◌, ℤ, Result, Float, String, Option, List, [], ◌∷◌, ℕ,
}
use streams_rollout_market.AgentLab.{AgentStep, AgentTrajectory, assistant_steps}

-- One entry of the payload for the trainer.
pub record Rollout : Type 0 where
  pub model : String
  pub trainer_reference : String
  pub prompt_idx : ℕ
  pub prompt_token_ids : List ℤ
  pub response_token_ids : List ℤ
  pub task_id : String
  pub assistant_turn_idx : ℕ
  pub trajectory_run_id : String

-- One entry of the index that the reports are paired by.
pub record IndexEntry : Type 0 where
  pub prompt_idx : ℕ
  pub task_id : String
  pub trajectory_run_id : String
  pub assistant_turn_idx : ℕ
  pub num_tokens : ℕ
  pub response_logprobs : List Float

pub record SkippedTurn : Type 0 where
  pub task_id : String
  pub trajectory_run_id : String
  pub assistant_turn_idx : ℕ
  pub reason : String

pub record Index : Type 0 where
  pub model_id : Option String
  pub precision_class : String
  pub entries : List IndexEntry
  pub skipped : List SkippedTurn

-- The lists that the loops append to, and the next number.
pub record Build : Type 0 where
  pub rollouts : List Rollout
  pub entries : List IndexEntry
  pub skipped : List SkippedTurn
  pub next_prompt_idx : ℕ

abbrev pub skip_turn : AgentTrajectory → ℕ → String → Build → Build
skip_turn t turn_idx reason b = record b { skipped = b.skipped ++ turn ∷ [] }
  where
    turn : SkippedTurn
    turn = record {
      task_id = t.task_id;
      trajectory_run_id = t.run_id;
      assistant_turn_idx = turn_idx;
      reason = reason;
    }

abbrev pub add_turn : String → AgentTrajectory → ℕ → List ℤ → List ℤ → List Float → Build → Build
add_turn model t turn_idx prompt response logprobs b = record b {
  rollouts = b.rollouts ++ rollout ∷ [];
  entries = b.entries ++ indexed ∷ [];
  next_prompt_idx = b.next_prompt_idx + 1;
}
  where
    rollout : Rollout
    rollout = record {
      model = model;
      trainer_reference = model;
      prompt_idx = b.next_prompt_idx;
      prompt_token_ids = prompt;
      response_token_ids = response;
      task_id = t.task_id;
      assistant_turn_idx = turn_idx;
      trajectory_run_id = t.run_id;
    }

    indexed : IndexEntry
    indexed = record {
      prompt_idx = b.next_prompt_idx;
      task_id = t.task_id;
      trajectory_run_id = t.run_id;
      assistant_turn_idx = turn_idx;
      num_tokens = length response;
      response_logprobs = logprobs;
    }

-- The body of the loop over the turns.
unfoldable pub build_turn : String → AgentTrajectory → ℕ → AgentStep → Build → Build
build_turn model t turn_idx s b = elim (s.prompt_token_ids) [
  | none ↦ skip_turn t turn_idx "missing prompt_token_ids or response_token_ids" b
  | some prompt ↦ elim (s.response_token_ids) [
    | none ↦ skip_turn t turn_idx "missing prompt_token_ids or response_token_ids" b
    | some response ↦ elim (s.response_logprobs) [
      | none ↦
          skip_turn t turn_idx "missing response_logprobs (no rollout-side comparison possible)" b
      | some logprobs ↦ add_turn model t turn_idx prompt response logprobs b
    ]
  ]
]

unfoldable pub build_turns : String → AgentTrajectory → ℕ → List AgentStep → Build → Build
unfolding build_turn
build_turns model t turn_idx [] b = b
build_turns model t turn_idx (s ∷ ss) b =
    build_turns model t (turn_idx + 1) ss (build_turn model t turn_idx s b)

-- The loop over the runs, with the model resolved so far and the override.
unfoldable pub build_loop :
    Option String → Option String → List AgentTrajectory → Build → Result (Option String × Build)
unfolding build_turns assistant_steps
build_loop override resolved [] b = ok (resolved, b)
build_loop override resolved (t ∷ ts) b = do
  let model = get_or resolved t.model_id
  raise_if (t.model_id != model && is_none override) value_error
  build_loop override (some model) ts (build_turns model t 0 (assistant_steps t) b)

abbrev pub empty_build : Build
empty_build = record { rollouts = []; entries = []; skipped = []; next_prompt_idx = 0 }

unfoldable pub build_rollouts_and_index :
    List AgentTrajectory → String → Option String → Result (List Rollout × Index)
unfolding build_loop
build_rollouts_and_index trajectories precision_class model_id_override = do
  built ← build_loop model_id_override model_id_override trajectories empty_build
  ok (
    built.1.rollouts,
    record {
      model_id = built.0;
      precision_class = precision_class;
      entries = built.1.entries;
      skipped = built.1.skipped;
    },
  )
