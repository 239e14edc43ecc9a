-- ===== src/Hermes/Turns.antt =====
-- The assistant turns of runs, numbered in each run, and what build_hermes_dense_input.py is to write
-- for one.
use streams_rollout_market.Prelude.{
  String, refl, inr, arith, inl, Bool-cases, [], ◌+◌, ◌++◌, is_none, ◌∷◌, ◌&&◌, true, not, false,
  some, if◌then◌else◌, List, Bool, ◌≡◌,
}
use Prim.Native.Nat.{ℕ}
use streams_rollout_market.AgentLab.{AgentStep, AgentTrajectory, assistant_steps}
use streams_rollout_market.Hermes.Inputs.{Rollout, IndexEntry, SkippedTurn}

-- Assistant turn number `idx` of the run.
pub record Turn : Type 0 where
  pub run : AgentTrajectory
  pub idx : ℕ
  pub step : AgentStep

abbrev pub turns_from : AgentTrajectory → ℕ → List AgentStep → List Turn
turns_from t k [] = []
turns_from t k (s ∷ ss) = record { run = t; idx = k; step = s } ∷ turns_from t (k + 1) ss

-- Every assistant turn of every run, in order.
abbrev pub turns_of : List AgentTrajectory → List Turn
turns_of [] = []
turns_of (t ∷ ts) = turns_from t 0 (assistant_steps t) ++ turns_of ts

-- The reasons for skipping a turn.
abbrev pub no_tokens : String
no_tokens = "missing prompt_token_ids or response_token_ids"

abbrev pub no_logprobs : String
no_logprobs = "missing response_logprobs (no rollout-side comparison possible)"

-- The step holds both token lists.
abbrev pub has_tokens : AgentStep → Bool
has_tokens s = not (is_none s.prompt_token_ids) && not (is_none s.response_token_ids)

-- The step holds what a comparison needs.
abbrev pub is_captured : Turn → Bool
is_captured t = has_tokens t.step && not (is_none t.step.response_logprobs)

-- The turns that hold it, and the others, in their order.
abbrev pub captured : List Turn → List Turn
captured [] = []
captured (t ∷ ts) = if is_captured t then t ∷ captured ts else captured ts

abbrev pub missing : List Turn → List Turn
missing [] = []
missing (t ∷ ts) = if is_captured t then missing ts else t ∷ missing ts

-- Rollout number `n` is that of the turn: its run, its number there and its tokens.
pub record IsRolloutOf (n : ℕ) (t : Turn) (r : Rollout) : Type 0 where
  pub number : r.prompt_idx ≡ n
  pub task : r.task_id ≡ t.run.task_id
  pub run : r.trajectory_run_id ≡ t.run.run_id
  pub turn : r.assistant_turn_idx ≡ t.idx
  pub prompt : t.step.prompt_token_ids ≡ some r.prompt_token_ids
  pub response : t.step.response_token_ids ≡ some r.response_token_ids

-- Index entry number `n` is that of the turn: its run, its number there, its log-probabilities.
pub record IsEntryOf (n : ℕ) (t : Turn) (e : IndexEntry) : Type 0 where
  pub number : e.prompt_idx ≡ n
  pub task : e.task_id ≡ t.run.task_id
  pub run : e.trajectory_run_id ≡ t.run.run_id
  pub turn : e.assistant_turn_idx ≡ t.idx
  pub logprobs : t.step.response_logprobs ≡ some e.response_logprobs

-- The skipped turn is this one, with the reason of the first list that lacks.
pub record IsSkipOf (n : ℕ) (t : Turn) (s : SkippedTurn) : Type 0 where
  pub task : s.task_id ≡ t.run.task_id
  pub run : s.trajectory_run_id ≡ t.run.run_id
  pub turn : s.assistant_turn_idx ≡ t.idx
  pub reason : s.reason ≡ (
      if has_tokens t.step
      then "missing response_logprobs (no rollout-side comparison possible)"
      else "missing prompt_token_ids or response_token_ids")

pub captured-snoc :
    (ts : List Turn) (t : Turn)
    → is_captured t ≡ true
    → (captured (ts ++ t ∷ []) ≡ captured ts ++ t ∷ []) × (missing (ts ++ t ∷ []) ≡ missing ts)
captured-snoc [] t h = (rw h refl, rw h refl)
captured-snoc (u ∷ ts) t h =
    let rest = captured-snoc ts t h in
    elim (Bool-cases (is_captured u)) [
      | inl e ↦ (rw e (ground (arith, rest.0)), rw e rest.1)
      | inr e ↦ (rw e rest.0, rw e (ground (arith, rest.1)))
    ]

pub missing-snoc :
    (ts : List Turn) (t : Turn)
    → is_captured t ≡ false
    → (captured (ts ++ t ∷ []) ≡ captured ts) × (missing (ts ++ t ∷ []) ≡ missing ts ++ t ∷ [])
missing-snoc [] t h = (rw h refl, rw h refl)
missing-snoc (u ∷ ts) t h =
    let rest = missing-snoc ts t h in
    elim (Bool-cases (is_captured u)) [
      | inl e ↦ (rw e (ground (arith, rest.0)), rw e rest.1)
      | inr e ↦ (rw e rest.0, rw e (ground (arith, rest.1)))
    ]
