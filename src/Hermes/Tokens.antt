-- ===== src/Hermes/Tokens.antt =====
-- scripts/live/hermes_token_extraction.py: the prompt and the response tokens of each assistant turn.
use streams_rollout_market.Prelude.{
  drop, length, true, raise_if, none, ◌==◌, value_error, leb, false, ◌>>◌, ◌>>=◌, ◌++◌, some, raise,
  ok, if◌then◌else◌, ◌+◌, ℤ, Option, Bool, Texts, String, Result, List, [], ◌∷◌, ℕ,
}
use streams_rollout_market.AgentLab.{AgentStep, AgentTrajectory, is_assistant, assistant_steps}

-- A chat message, `{"role": …, "content": …}`.
pub record Message : Type 0 where
  pub role : String
  pub content : String

-- What `apply_chat_template(…, tokenize=True)` may return: a list of ints, a BatchEncoding whose
-- `input_ids` are a list of ints or of lists, an Encoding, a list of Encodings, a list of lists of ints,
-- or something else.
pub data TemplateOutput : Type 0 where
  id_list : List ℤ → TemplateOutput
  batch_flat : List ℤ → TemplateOutput
  batch_nested : List (List ℤ) → TemplateOutput
  encoding : List ℤ → TemplateOutput
  encodings : List (List ℤ) → TemplateOutput
  nested : List (List ℤ) → TemplateOutput
  unsupported : TemplateOutput

-- `tokenizer.apply_chat_template(messages, add_generation_prompt=…, tokenize=True)`
pub record ChatTokenizer : Type 0 where
  pub apply_chat_template : List Message → Bool → TemplateOutput

unfoldable pub coerce_to_id_list : TemplateOutput → Result (List ℤ)
coerce_to_id_list (id_list []) = raise value_error
coerce_to_id_list (id_list (x ∷ xs)) = ok (x ∷ xs)
coerce_to_id_list (batch_flat ids) = ok ids
coerce_to_id_list (batch_nested []) = ok []
coerce_to_id_list (batch_nested (ids ∷ rest)) = ok ids
coerce_to_id_list (encoding ids) = ok ids
coerce_to_id_list (encodings []) = raise value_error
coerce_to_id_list (encodings (ids ∷ rest)) = ok ids
coerce_to_id_list (nested []) = raise value_error
coerce_to_id_list (nested ([] ∷ rest)) = raise value_error
coerce_to_id_list (nested ((x ∷ xs) ∷ rest)) = ok (x ∷ xs)
coerce_to_id_list unsupported = raise value_error

-- `remove_think` is `_THINK_RE.sub("", text)`.
module _ (py : Texts) (remove_think : String → String) where
  unfoldable pub strip_think : String → String
  strip_think text = py.strip (remove_think text)

  -- The loop over the steps, which stops at the target.
  unfoldable pub prior_loop : ℕ → ℕ → List AgentStep → List Message
  unfolding strip_think
  prior_loop target seen [] = []
  prior_loop target seen (s ∷ ss) =
      let after = prior_loop target (seen + 1) ss in
      let rest = prior_loop target seen ss in
      if is_assistant s.role
      then (if leb target seen
          then []
          else record { role = "assistant"; content = strip_think s.content } ∷ after)
      else record { role = "tool"; content = s.content } ∷ rest

  -- `if system_prompt:`
  abbrev pub system_messages : Option String → List Message
  system_messages none = []
  system_messages (some prompt) =
      if prompt == "" then [] else record { role = "system"; content = prompt } ∷ []

  unfoldable pub build_prior_messages : AgentTrajectory → ℕ → Option String → List Message
  unfolding prior_loop
  build_prior_messages t target system_prompt =
      system_messages system_prompt
      ++ record { role = "user"; content = t.task_text } ∷ prior_loop target 0 t.steps

  -- The chat template, as a list of ints.
  abbrev pub encode : ChatTokenizer → List Message → Bool → Result (List ℤ)
  encode tok messages generation = coerce_to_id_list (tok.apply_chat_template messages generation)

  -- The re-encoded response of a turn.
  unfoldable pub encode_response :
      ChatTokenizer → List Message → List ℤ → AgentStep → Result (List ℤ × List ℤ)
  unfolding strip_think coerce_to_id_list
  encode_response tok prior prompt_ids step = do
    let reply : Message = record { role = "assistant"; content = strip_think step.content }
    full_ids ← encode tok (prior ++ reply ∷ []) false
    raise_if (leb (length full_ids) (length prompt_ids)) value_error
    ok (prompt_ids, drop (length prompt_ids) full_ids)

  -- A turn whose prompt was not captured, or whose response was not.
  unfoldable pub encode_turn :
      AgentTrajectory
      → Option ChatTokenizer
      → Option String
      → ℕ
      → AgentStep
      → Result (List ℤ × List ℤ)
  unfolding build_prior_messages encode_response coerce_to_id_list
  encode_turn t none system_prompt i step = raise value_error
  encode_turn t (some tok) system_prompt i step = do
    let prior = build_prior_messages t i system_prompt
    prompt_ids ← encode tok prior true
    elim (step.response_token_ids) [
      | some captured ↦ ok (prompt_ids, captured)
      | none ↦ encode_response tok prior prompt_ids step
    ]

  -- The body of the loop over the turns.
  unfoldable pub extract_turn :
      AgentTrajectory
      → Option ChatTokenizer
      → Option String
      → ℕ
      → AgentStep
      → Result (List ℤ × List ℤ)
  unfolding encode_turn
  extract_turn t tokenizer system_prompt i step = elim (step.prompt_token_ids) [
    | none ↦ encode_turn t tokenizer system_prompt i step
    | some prompt ↦ elim (step.response_token_ids) [
      | none ↦ encode_turn t tokenizer system_prompt i step
      | some response ↦ ok (prompt, response)
    ]
  ]

  unfoldable pub extract_loop :
      AgentTrajectory
      → Option ChatTokenizer
      → Option String
      → ℕ
      → List AgentStep
      → Result (List (List ℤ × List ℤ))
  unfolding extract_turn
  extract_loop t tokenizer system_prompt i [] = ok []
  extract_loop t tokenizer system_prompt i (s ∷ ss) = do
    pair ← extract_turn t tokenizer system_prompt i s
    rest ← extract_loop t tokenizer system_prompt (i + 1) ss
    ok (pair ∷ rest)

  unfoldable pub extract_token_pairs :
      AgentTrajectory → Option ChatTokenizer → Option String → Result (List (List ℤ × List ℤ))
  unfolding extract_loop assistant_steps
  extract_token_pairs t tokenizer system_prompt =
      extract_loop t tokenizer system_prompt 0 (assistant_steps t)

-- One entry of `trajectory_to_rollouts`.
pub record TurnRollout : Type 0 where
  pub task_id : String
  pub assistant_turn_idx : ℕ
  pub model : String
  pub prompt_idx : ℕ
  pub prompt_token_ids : List ℤ
  pub response_token_ids : List ℤ
  pub trajectory_run_id : String

-- The loop over `enumerate(pairs)`, from index `i`.
unfoldable pub rollouts_of : AgentTrajectory → ℕ → List (List ℤ × List ℤ) → List TurnRollout
rollouts_of t i [] = []
rollouts_of t i (p ∷ ps) =
    record {
      task_id = t.task_id;
      assistant_turn_idx = i;
      model = t.model_id;
      prompt_idx = i;
      prompt_token_ids = p.0;
      response_token_ids = p.1;
      trajectory_run_id = t.run_id;
    }
    ∷ rollouts_of t (i + 1) ps

unfoldable pub trajectory_to_rollouts :
    Texts
    → (String → String)
    → AgentTrajectory
    → Option ChatTokenizer
    → Option String
    → Result (List TurnRollout)
unfolding rollouts_of
trajectory_to_rollouts py remove_think t tokenizer system_prompt = do
  pairs ← extract_token_pairs py remove_think t tokenizer system_prompt
  ok (rollouts_of t 0 pairs)
