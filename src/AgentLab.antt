-- ===== src/AgentLab.antt =====
-- src/rollout_market/observatory/agent_trajectory_lab.py: agent runs, and where two of them diverge.
pub mod Texts
pub mod Walk
pub mod Divergence
use streams_rollout_market.Prelude.{
  member, add, ℕ, suc, ◌+◌, ℤ, pos, ltb_ℤ, eq_ℤ, nat_eq, ltb, String, Bool, true, false, not, ◌&&◌,
  ◌||◌, Option, none, some, List, [], ◌∷◌, ◌++◌, map, length, Time, Float, Floats, Result, ok,
  raise, raise_if, ◌>>=◌, ◌>>◌, get_or, validation_error, value_error, ◌==◌, ◌!=◌, ◌<>◌, opt_eq,
  if◌then◌else◌,
}
use streams_rollout_market.Device.{DeviceFingerprint}
use streams_rollout_market.DenseLab.{EngineFingerprint}

pub record ToolCallRecord : Type 0 where
  pub name : String
  pub arguments_json : String
  pub arguments_hash : String
  pub result_text : String
  pub result_hash : String

pub data Role : Type 0 where
  assistant tool : Role

pub record AgentStep : Type 0 where
  pub step_idx : ℤ
  pub role : Role
  pub content : String
  pub tool_calls : List ToolCallRecord
  pub finish_reason : Option String
  pub response_token_count : ℤ
  pub response_logprobs_hash : Option String
  pub prompt_token_ids : Option (List ℤ)
  pub response_token_ids : Option (List ℤ)
  pub response_logprobs : Option (List Float)
  pub response_routed_experts : Option (List (List (List ℤ)))

abbrev pub is_assistant : Role → Bool
is_assistant assistant = true
is_assistant tool = false

-- A list that is there and not empty.
abbrev pub is_filled {ℓ} : {A : Type ℓ} → Option (List A) → Bool
is_filled none = false
is_filled (some []) = false
is_filled (some (x ∷ xs)) = true

-- Both lists are there, and their lengths differ.
abbrev pub lengths_differ {ℓ κ} :
    {A : Type ℓ} {B : Type κ} → Option (List A) → Option (List B) → Bool
lengths_differ none ys = false
lengths_differ (some xs) none = false
lengths_differ (some xs) (some ys) = not (nat_eq (length xs) (length ys))

abbrev pub is_nonempty {ℓ} : {A : Type ℓ} → List A → Bool
is_nonempty [] = false
is_nonempty (x ∷ xs) = true

unfoldable pub new_agent_step : AgentStep → Result AgentStep
new_agent_step s = do
  raise_if (not (is_assistant s.role) && is_nonempty s.tool_calls) validation_error
  raise_if (lengths_differ s.response_token_ids s.response_logprobs) validation_error
  raise_if (lengths_differ s.response_token_ids s.response_routed_experts) validation_error
  raise_if
      (not (is_assistant s.role)
        && (is_filled s.prompt_token_ids
            || is_filled s.response_token_ids
            || is_filled s.response_logprobs
            || is_filled s.response_routed_experts))
      validation_error
  ok s

pub data TerminalReason : Type 0 where
  answered max_steps error no_op : TerminalReason

pub record AgentTrajectory : Type 0 where
  pub run_id : String
  pub task_id : String
  pub task_text : String
  pub model_id : String
  pub rollout_engine : EngineFingerprint
  pub available_tools : List String
  pub steps : List AgentStep
  pub success : Option Bool
  pub terminal_reason : TerminalReason
  pub total_assistant_tokens : ℤ
  pub final_answer : String
  pub created_at : Time

-- `[s for s in steps if s.role == "assistant"]`
unfoldable pub assistants : List AgentStep → List AgentStep
assistants [] = []
assistants (s ∷ ss) = let rest = assistants ss in if is_assistant s.role then s ∷ rest else rest

unfoldable pub assistant_steps : AgentTrajectory → List AgentStep
assistant_steps t = assistants t.steps

abbrev pub signature_of : List ToolCallRecord → List (String × String)
signature_of = map (λ c. (c.name, c.arguments_hash))

unfoldable pub signatures : List AgentStep → List (String × String)
signatures [] = []
signatures (s ∷ ss) = signature_of s.tool_calls ++ signatures ss

unfoldable pub tool_call_signature : AgentTrajectory → List (String × String)
tool_call_signature t = signatures t.steps

pub data DivergenceKind : Type 0 where
  tool_choice tool_args content termination : DivergenceKind

pub record TrajectoryDivergenceReport : Type 0 where
  pub run_id : String
  pub task_id : String
  pub task_text : String
  pub model_id : String
  pub rollout_engine : EngineFingerprint
  pub trainer_engine : EngineFingerprint
  pub rollout_step_count : ℕ
  pub trainer_step_count : ℕ
  pub rollout_assistant_steps : ℕ
  pub trainer_assistant_steps : ℕ
  pub first_divergence_step : Option ℕ
  pub first_divergence_kind : Option DivergenceKind
  pub tool_choice_disagreement_rate : Float
  pub tool_call_jaccard : Float
  pub final_answer_match : Bool
  pub final_answer_match_soft : Bool
  pub rollout_terminal_reason : TerminalReason
  pub trainer_terminal_reason : TerminalReason
  pub same_step_count : Bool
  pub rollout_tool_signature : List (String × String)
  pub trainer_tool_signature : List (String × String)
  pub device : Option DeviceFingerprint
  pub notes : List String
  pub created_at : Time
