-- ===== src/Examples/Probed.antt =====
-- The probes of one message, and the routing of one turn.
use streams_rollout_market.Prelude.{
  Result, ◌++◌, true, pos_part, object, field, text, array, cons, nil, end, null, float, int, Items,
  ◌≤◌, ℤ, take, ok, length, arith, Json, ◌≡◌, pos, lookup, false, List, Dict, [], ◌∷◌, ℕ, none,
  some, refl, dec_text,
}
use streams_rollout_market.AgentLab.{AgentStep, AgentTrajectory, assistant_steps, assistants}
use streams_rollout_market.RouterLab.{
  compute_router_mismatch, RouterInput, RouterMismatchReport, new_router_trace, experts_valid,
  layers_valid, tokens_valid,
}
use streams_rollout_market.Hermes.Inputs.{IndexEntry}
use streams_rollout_market.Hermes.Routing.{trace_with, RoutingEntry, routing_at, pair_routing}
use streams_rollout_market.Hermes.Windows.{IsRoutable, pair_routing-bounds}
use streams_rollout_market.Hermes.Probes.{
  first_user_message_hash, is_candidate, coerce_prompt_index, Probe, Value, Numbers, dict, hashed,
}
use streams_rollout_market.Hermes.Stamping.{gpt_turns}
use streams_rollout_market.Hermes.Proxy.{
  field_in, get_field, get_in, positive_int, item_count, drop_items, logprobs_of, Captured,
  extract_probes, derive_turn_idx, derive_prompt_index,
}
use streams_rollout_market.Hermes.Capturing.{IsSameTalk, derive_lem, extract_probes-bounds}
use streams_rollout_market.Examples.Data.{texts, floats}
use streams_rollout_market.Examples.Runs.{run, captured_turn}

abbrev numbers : Numbers
numbers = record {
  is_digit = λ s. false;
  parse_int = λ s. ok (pos 0);
  to_int = λ j. ok (pos 0);
  digest = λ s. s;
}

-- The captured tokens of the first answer in the prompt with the hash "hash".
abbrev records : List Value
records =
    dict (
      ("prompt_index", Json.text "hash")
      ∷ ("turn_idx", Json.int (pos 0))
      ∷ ("response_token_ids", Json.text "ids")
      ∷ ("model", Json.text "m")
      ∷ [])
    ∷ []

abbrev probes : List Probe
probes =
    record {
      prompt_index = hashed "hash";
      turn_idx = pos 0;
      fields = ("response_token_ids", Json.text "ids") ∷ [];
    }
    ∷ []

abbrev answer : Dict Json
answer = ("from", Json.text "gpt") ∷ ("value", Json.text "42") ∷ []

abbrev chat : List Value
chat = dict (("from", Json.text "human") ∷ ("value", Json.text "question") ∷ []) ∷ dict answer ∷ []

abbrev routed : List (List (List ℤ))
routed = ((pos 0 ∷ []) ∷ []) ∷ ((pos 1 ∷ []) ∷ []) ∷ []

-- The trainer's trace also covers one token of the prompt.
abbrev routing_entry : RoutingEntry
routing_entry = record {
  prompt_idx = pos 0;
  expert_ids = ((pos 1 ∷ []) ∷ []) ∷ ((pos 0 ∷ []) ∷ []) ∷ ((pos 0 ∷ []) ∷ []) ∷ [];
  num_layers = pos 1;
  num_experts = pos 2;
  top_k = pos 1;
  engine = none;
  engine_fingerprint = none;
  world_size = none;
}

abbrev routed_turn : AgentStep
routed_turn = record captured_turn { response_routed_experts = some routed }

abbrev routed_run : AgentTrajectory
routed_run = record run { steps = routed_turn ∷ [] }

abbrev entry_at : IndexEntry
entry_at = record {
  prompt_idx = 0;
  task_id = "task";
  trajectory_run_id = "run";
  assistant_turn_idx = 0;
  num_tokens = 2;
  response_logprobs = 4 ∷ 5 ∷ [];
}

run-IsRoutable :
    IsRoutable
      (routing_entry ∷ [])
      (("run", routed_run) ∷ [])
      entry_at
      routing_entry
      routed_run
      routed_turn
      routed
unfolding routing_at lookup dec_text assistant_steps assistants new_router_trace tokens_valid
    layers_valid experts_valid
run-IsRoutable = record {
  answered = refl;
  known = refl;
  turn_found = refl;
  captured = refl;
  some_token = omega arith;
  covered = omega arith;
  rollout_built = refl;
  trainer_built = refl;
}

pair_routing-bounds_example :
    (before window : List (List (List ℤ))) × (input : RouterInput) × (report : RouterMismatchReport)
    × (flips : ℕ) × (routing_entry.expert_ids ≡ before ++ window)
    × (length window ≡ 2)
    × (input.rollout_trace ≡ trace_with routing_entry routed)
    × (input.trainer_trace ≡ trace_with routing_entry window)
    × (input.model_id ≡ "model")
    × (input.rollout_engine ≡ run.rollout_engine)
    × (compute_router_mismatch floats 9 input ≡ ok report)
    × (pair_routing texts floats 9
          (routing_entry ∷ [])
          (("run", routed_run) ∷ [])
          "bf16"
          none
          entry_at
        ≡ ok report)
    × ((report.router_flip_rate ≡ floats.divide (floats.of_nat flips) (floats.of_nat 2))
        × (flips ≤ 2))
pair_routing-bounds_example =
    pair_routing-bounds texts floats 9 (routing_entry ∷ []) (("run", routed_run) ∷ []) "bf16" none
      entry_at routing_entry routed_run routed_turn routed run-IsRoutable

abbrev question : Json
question = object (field "role" (text "user") (field "content" (text "question") end))

-- The request for the answer.
abbrev request : Json
request = object (field "messages" (array (cons question nil)) end)

request_messages : get_field "messages" request ≡ some (array (cons question nil))
unfolding field_in dec_text
request_messages = refl

request-IsSameTalk : IsSameTalk (cons question nil) (take 1 chat)
unfolding field_in lookup dec_text
request-IsSameTalk = (refl, refl, tt)

question_hash : first_user_message_hash numbers (take 1 chat) ≡ some "question"
unfolding first_user_message_hash lookup dec_text
question_hash = refl

derive_lem_example :
    (let prompt = derive_prompt_index numbers.digest (some request) in
      (derive_turn_idx (some request) ≡ gpt_turns (take 1 chat))
      × (is_candidate (pos 5) (first_user_message_hash numbers chat) (hashed prompt) ≡ true)
      × (numbers.is_digit "question" ≡ false
          → coerce_prompt_index numbers (text prompt) ≡ ok (hashed prompt)))
derive_lem_example =
    derive_lem numbers (pos 5) chat 1 request (cons question nil) "question" request_messages
      request-IsSameTalk question_hash

abbrev lists : Json → Json
lists x = array (cons x nil)

-- One token, and the routing of the prompt's last token and of it.
abbrev response : Json
response = object (
    field "choices"
      (lists (
        object (
          field "logprobs"
            (object (field "content" (lists (object (field "logprob" (float 4) end))) end))
            (field "routed_experts" (array (cons null (cons null nil))) end))))
      (field "usage" (object (field "completion_tokens" (int (pos 1)) end)) end))

abbrev captured : Captured
captured = record {
  prompt_index = "question";
  turn_idx = 0;
  response_logprobs = 4 ∷ [];
  response_token_ids = none;
  prompt_token_ids = none;
  response_routed_experts = some (cons null nil);
  prompt_routed_experts = none;
}

abbrev as_number : ℤ → Result ℕ
as_number n = ok (pos_part n)

response_captured : extract_probes as_number (some response) "question" 0 ≡ ok (some captured)
unfolding extract_probes field_in dec_text logprobs_of item_count drop_items
response_captured = refl

extract_probes-bounds_example :
    (1 ≤ length captured.response_logprobs)
    × ((n : ℕ) (routed : Items)
        → positive_int (get_in "completion_tokens" (get_field "usage" response)) ≡ some n
        → captured.response_routed_experts ≡ some routed
        → item_count routed ≤ n)
extract_probes-bounds_example =
    extract_probes-bounds as_number response "question" 0 captured response_captured
