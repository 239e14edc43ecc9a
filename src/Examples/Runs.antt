-- ===== src/Examples/Runs.antt =====
-- Agent runs, their tokens and their comparison at small inputs.
use mathlib.Core.List.{append_assoc, append-nil}
use streams_rollout_market.Prelude.{
  ◌==◌, if◌then◌else◌, Bool, sym, ◌++◌, true, arith, ap, Float, ◌≡◌, ◌∙◌, ℤ, ok, Option, ◌≤◌, pos,
  get_elem?, false, String, List, [], ◌∷◌, none, some, refl, dec_text, Each,
}
use streams_rollout_market.DenseLab.{EngineFingerprint}
use streams_rollout_market.AgentLab.{
  ToolCallRecord, AgentStep, AgentTrajectory, assistant, tool, answered, assistant_steps,
  assistants,
}
use streams_rollout_market.AgentLab.Texts.{Answers}
use streams_rollout_market.AgentLab.Walk.{walk_all, first_divergence}
use streams_rollout_market.AgentLab.Divergence.{
  Reported, first_divergence-Reported, walk_all-bounds,
}
use streams_rollout_market.Hermes.Tokens.{
  strip_think, prior_loop, encode_response, encode_turn, extract_turn, extract_loop,
  coerce_to_id_list, ChatTokenizer, Message, id_list, build_prior_messages, extract_token_pairs,
}
use streams_rollout_market.Hermes.Extraction.{IsExtracted, extract_token_pairs-Each}
use streams_rollout_market.Hermes.Histories.{
  IsExtending, IsWhole, extract_token_pairs_roundtrip, Grows, build_prior_messages-Grows,
}
use streams_rollout_market.Examples.Data.{texts}

abbrev answers : Answers
answers = record {
  words = λ s. s ∷ [];
  lower = λ s. s;
  occurs_in = λ a b. false;
  find_numbers = λ s. [];
  bare = λ s. s;
  parse_float = λ s. none;
  to_int = λ f. ok (pos f);
  equals_int = λ f n. true;
  str_int = λ n. "";
  format_g = λ f. "";
}

abbrev call : String → ToolCallRecord
call name = record {
  name = name;
  arguments_json = "{}";
  arguments_hash = "h";
  result_text = "";
  result_hash = "";
}

-- A turn that calls a tool, whose tokens were captured if they are given.
abbrev turn : String → Option (List ℤ) → Option (List ℤ) → Option (List Float) → AgentStep
turn name prompt response logprobs = record {
  step_idx = pos 0;
  role = assistant;
  content = "";
  tool_calls = call name ∷ [];
  finish_reason = none;
  response_token_count = pos 0;
  response_logprobs_hash = none;
  prompt_token_ids = prompt;
  response_token_ids = response;
  response_logprobs = logprobs;
  response_routed_experts = none;
}

abbrev tool_step : AgentStep
tool_step = record (turn "" none none none) { role = tool; tool_calls = []; content = "42" }

abbrev engine : EngineFingerprint
engine = record { name = "vllm"; version = "1"; fingerprint = "f" }

-- Two turns: the first was captured, the second was not.
abbrev pub captured_turn : AgentStep
captured_turn = turn "search" (some (pos 1 ∷ [])) (some (pos 2 ∷ pos 3 ∷ [])) (some (4 ∷ 5 ∷ []))

abbrev bare_turn : AgentStep
bare_turn = turn "answer" none none none

abbrev pub run : AgentTrajectory
run = record {
  run_id = "run";
  task_id = "task";
  task_text = "question";
  model_id = "model";
  rollout_engine = engine;
  available_tools = [];
  steps = captured_turn ∷ tool_step ∷ bare_turn ∷ [];
  success = none;
  terminal_reason = answered;
  total_assistant_tokens = pos 2;
  final_answer = "42";
  created_at = 0;
}

abbrev one_turn : List AgentStep
one_turn = turn "search" none none none ∷ []

abbrev two_turns : List AgentStep
two_turns = turn "search" none none none ∷ turn "open" none none none ∷ []

first_divergence-Reported_example :
    Reported answers one_turn two_turns (first_divergence answers one_turn two_turns)
first_divergence-Reported_example = first_divergence-Reported answers one_turn two_turns

walk_all-bounds_example :
    ((walk_all answers one_turn two_turns).disagreement_steps
      ≤ (walk_all answers one_turn two_turns).eligible_steps)
    × ((walk_all answers one_turn two_turns).eligible_steps ≤ 1)
walk_all-bounds_example = walk_all-bounds answers one_turn two_turns

-- A chat template that tags each message with its role, as the tokenizer in
-- tests/test_hermes_token_extraction.py does, with one token for a content that is not empty.
abbrev opener : String → List ℤ
opener role =
    if role == "assistant"
    then pos 90003 ∷ pos 90100 ∷ []
    else if role == "tool"
    then pos 90004 ∷ []
    else if role == "user"
    then pos 90002 ∷ []
    else pos 90001 ∷ []

abbrev content_ids : Message → List ℤ
content_ids m = (if m.content == "" then [] else pos 7 ∷ []) ++ pos 90099 ∷ []

abbrev message_ids : Message → List ℤ
message_ids m = opener m.role ++ content_ids m

abbrev conversation_ids : List Message → List ℤ
conversation_ids [] = []
conversation_ids (m ∷ ms) = message_ids m ++ conversation_ids ms

abbrev generation_ids : Bool → List ℤ
generation_ids generation = if generation then pos 90003 ∷ pos 90100 ∷ [] else []

abbrev template : ChatTokenizer
template = record {
  apply_chat_template =
      λ messages generation. id_list (conversation_ids messages ++ generation_ids generation);
}

abbrev pairs : List (List ℤ × List ℤ)
pairs =
    (pos 1 ∷ [], pos 2 ∷ pos 3 ∷ [])
    ∷ (
      pos 90002
          ∷ pos 7
          ∷ pos 90099
          ∷ pos 90003
          ∷ pos 90100
          ∷ pos 90099
          ∷ pos 90004
          ∷ pos 7
          ∷ pos 90099
          ∷ pos 90003
          ∷ pos 90100
          ∷ [],
      pos 90099 ∷ [],
    )
    ∷ []

abbrev no_think : String → String
no_think s = s

extracted : extract_token_pairs texts no_think run (some template) none ≡ ok pairs
unfolding extract_token_pairs extract_loop extract_turn encode_turn encode_response assistant_steps
    dec_text assistants build_prior_messages prior_loop strip_think coerce_to_id_list
extracted = refl

extract_token_pairs-Each_example :
    Each (IsExtracted texts no_think run (some template) none) 0 (assistant_steps run) pairs
extract_token_pairs-Each_example =
    extract_token_pairs-Each texts no_think run (some template) none pairs extracted

conversation_ids-append :
    (xs ys : List Message)
    → conversation_ids (xs ++ ys) ≡ conversation_ids xs ++ conversation_ids ys
conversation_ids-append [] ys = refl
conversation_ids-append (x ∷ xs) ys =
    ap (λ z. message_ids x ++ z) (conversation_ids-append xs ys)
    ∙ sym (append_assoc (message_ids x) (conversation_ids xs) (conversation_ids ys))

message_ids-assistant :
    (m : Message)
    → m.role ≡ "assistant"
    → message_ids m ++ [] ≡ generation_ids true ++ content_ids m
unfolding dec_text
message_ids-assistant m h = append-nil (message_ids m) ∙ ap (λ role. opener role ++ content_ids m) h

coerce_id_list : (xs ys : List ℤ) → coerce_to_id_list (id_list xs) ≡ ok ys → ys ≡ xs
unfolding coerce_to_id_list
coerce_id_list [] ys h = absurd (cc)
coerce_id_list (x ∷ xs) ys h = ground arith

template-IsExtending : IsExtending texts no_think template
template-IsExtending messages reply p full role ep ef = (
  content_ids reply,
  coerce_id_list _ full ef
      ∙ append-nil (conversation_ids (messages ++ reply ∷ []))
      ∙ conversation_ids-append messages (reply ∷ [])
      ∙ ap (λ z. conversation_ids messages ++ z) (message_ids-assistant reply role)
      ∙ sym (append_assoc (conversation_ids messages) (generation_ids true) (content_ids reply))
      ∙ ap (λ z. z ++ content_ids reply) (sym (coerce_id_list _ p ep)),
)

extract_token_pairs_roundtrip_example :
    Each (IsWhole texts no_think run template none) 0 (assistant_steps run) pairs
extract_token_pairs_roundtrip_example =
    extract_token_pairs_roundtrip texts no_think run template none pairs template-IsExtending
      extracted

first_turn : get_elem? (assistant_steps run) 0 ≡ some captured_turn
unfolding assistant_steps assistants
first_turn = refl

build_prior_messages-Grows_example :
    Grows texts no_think
      (build_prior_messages texts no_think run 0 none)
      captured_turn
      (build_prior_messages texts no_think run 1 none)
build_prior_messages-Grows_example =
    build_prior_messages-Grows texts no_think run none 0 captured_turn first_turn
