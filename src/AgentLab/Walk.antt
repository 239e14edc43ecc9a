-- ===== src/AgentLab/Walk.antt =====
-- src/rollout_market/observatory/agent_trajectory_lab.py: the comparison of two agent runs.
use streams_rollout_market.Prelude.{
  ℕ, ◌+◌, nat_eq, ltb, String, Bool, true, false, not, ◌&&◌, ◌||◌, Option, none, some, List, [],
  ◌∷◌, ◌++◌, map, length, Time, Float, Floats, Result, ok, raise_if, ◌>>=◌, ◌>>◌, get_or,
  value_error, ◌==◌, ◌!=◌, ◌<>◌, if◌then◌else◌,
}
use streams_rollout_market.AgentLab.{
  ToolCallRecord, AgentStep, AgentTrajectory, TerminalReason, answered, max_steps, error, no_op,
  DivergenceKind, tool_choice, tool_args, content, termination, TrajectoryDivergenceReport,
  is_nonempty, assistant_steps, tool_call_signature,
}
use streams_rollout_market.AgentLab.Texts.{Answers, content_matches, soft_content_match}
use streams_rollout_market.Device.{DeviceFingerprint}

-- `a == b` for two lists of texts
unfoldable pub texts_eq : List String → List String → Bool
texts_eq [] [] = true
texts_eq (s ∷ ss) (t ∷ ts) = s == t && texts_eq ss ts
texts_eq _ _ = false

pair_eq : String × String → String × String → Bool
pair_eq p q = p.0 == q.0 && p.1 == q.1

unfoldable pub mem_pair : String × String → List (String × String) → Bool
unfolding pair_eq
mem_pair p [] = false
mem_pair p (q ∷ qs) = pair_eq p q || mem_pair p qs

-- `set(ps)`, as a list without repetitions
unfoldable pub distinct : List (String × String) → List (String × String)
unfolding mem_pair
distinct [] = []
distinct (p ∷ ps) = let rest = distinct ps in if mem_pair p ps then rest else p ∷ rest

-- How many elements of the first set the second one has.
unfoldable pub shared : List (String × String) → List (String × String) → ℕ
unfolding mem_pair
shared [] qs = 0
shared (p ∷ ps) qs = let rest = shared ps qs in if mem_pair p qs then rest + 1 else rest

-- Whether a pair of steps is told apart by its tools (none: they agree).
abbrev pub names_of : List ToolCallRecord → List String
names_of = map (λ c. c.name)

abbrev pub hashes_of : List ToolCallRecord → List String
hashes_of = map (λ c. c.arguments_hash)

module _ (an : Answers) where
  -- The kind of divergence at one pair of steps, if any.
  unfoldable pub step_divergence : AgentStep → AgentStep → Option DivergenceKind
  unfolding content_matches texts_eq
  step_divergence r t =
      if is_nonempty r.tool_calls || is_nonempty t.tool_calls
      then (if not (texts_eq (names_of r.tool_calls) (names_of t.tool_calls))
          then some tool_choice
          else if not (texts_eq (hashes_of r.tool_calls) (hashes_of t.tool_calls))
          then some tool_args
          else none)
      else if not (content_matches an r.content t.content)
      then some content
      else none

abbrev pub min_length {ℓ κ} : {A : Type ℓ} {B : Type κ} → List A → List B → ℕ
min_length xs ys = if ltb (length ys) (length xs) then length ys else length xs

abbrev pub map_option {ℓ κ} : {A : Type ℓ} {B : Type κ} → (A → B) → Option A → Option B
map_option f none = none
map_option f (some a) = some (f a)

-- What the loop of `compute_trajectory_divergence` has found.
pub record Walk : Type 0 where
  pub first : Option (ℕ × DivergenceKind)
  pub disagreement_steps : ℕ
  pub eligible_steps : ℕ

abbrev pub or_first :
    Option (ℕ × DivergenceKind) → ℕ → Option DivergenceKind → Option (ℕ × DivergenceKind)
or_first (some f) i kind = some f
or_first none i none = none
or_first none i (some kind) = some (i, kind)

abbrev pub is_tool_choice : Option DivergenceKind → Bool
is_tool_choice (some tool_choice) = true
is_tool_choice _ = false

module _ (an : Answers) where
  abbrev pub walk_step : ℕ → AgentStep → AgentStep → Walk → Walk
  walk_step i r t w =
      let kind = step_divergence an r t in
      record {
        first = or_first w.first i kind;
        disagreement_steps =
            if is_tool_choice kind then w.disagreement_steps + 1 else w.disagreement_steps;
        eligible_steps =
            if is_nonempty r.tool_calls || is_nonempty t.tool_calls
            then w.eligible_steps + 1
            else w.eligible_steps;
      }

  -- The loop over the pairs, from index `i`.
  unfoldable pub walk : ℕ → List AgentStep → List AgentStep → Walk → Walk
  unfolding step_divergence
  walk i (r ∷ rs) (t ∷ ts) w = walk (i + 1) rs ts (walk_step i r t w)
  walk i _ _ w = w

  abbrev pub walk_all : List AgentStep → List AgentStep → Walk
  walk_all rs ts =
      walk 0 rs ts (record { first = none; disagreement_steps = 0; eligible_steps = 0 })

  -- `pair_count` is the length of the shorter list.
  abbrev pub first_divergence : List AgentStep → List AgentStep → Option (ℕ × DivergenceKind)
  first_divergence rs ts =
      or_first (walk_all rs ts).first (min_length rs ts)
        (if nat_eq (length rs) (length ts) then none else some termination)

abbrev pub terminal_eq : TerminalReason → TerminalReason → Bool
terminal_eq answered answered = true
terminal_eq max_steps max_steps = true
terminal_eq error error = true
terminal_eq no_op no_op = true
terminal_eq _ _ = false

module _ (fl : Floats) (an : Answers) where
  -- `disagreement_steps / eligible_steps if eligible_steps else 0.0`
  abbrev pub disagreement_rate : Walk → Float
  disagreement_rate w =
      if nat_eq w.eligible_steps 0
      then fl.of_nat 0
      else fl.divide (fl.of_nat w.disagreement_steps) (fl.of_nat w.eligible_steps)

  -- `len(a & b) / len(a | b)`, or 1.0 where both sets are empty
  unfoldable pub jaccard : List (String × String) → List (String × String) → Float
  unfolding distinct shared
  jaccard ps qs =
      let both = shared (distinct ps) qs in
      let union = length (distinct (ps ++ qs)) in
      if nat_eq union 0 then fl.of_nat 1 else fl.divide (fl.of_nat both) (fl.of_nat union)

  -- The two comparisons of the final answers.
  unfoldable pub answer_matches : AgentTrajectory → AgentTrajectory → Result (Bool × Bool)
  answer_matches r t = do
    soft ← soft_content_match an r.final_answer t.final_answer
    let same =
        terminal_eq r.terminal_reason t.terminal_reason && terminal_eq r.terminal_reason answered
    ok (
        if r.final_answer == "" && t.final_answer == ""
        then (same, same)
        else (content_matches an r.final_answer t.final_answer, soft))

  unfoldable pub compute_trajectory_divergence :
      AgentTrajectory
      → AgentTrajectory
      → Option (List String)
      → Option DeviceFingerprint
      → Time
      → Result TrajectoryDivergenceReport
  unfolding assistant_steps tool_call_signature walk
  compute_trajectory_divergence r t notes device clock = do
    raise_if (r.task_id != t.task_id) value_error
    raise_if (r.model_id != t.model_id) value_error
    let rs = assistant_steps r
    let ts = assistant_steps t
    let first = first_divergence an rs ts
    matches ← answer_matches r t
    ok (record {
      run_id = r.run_id <> "-vs-" <> t.run_id;
      task_id = r.task_id;
      task_text = r.task_text;
      model_id = r.model_id;
      rollout_engine = r.rollout_engine;
      trainer_engine = t.rollout_engine;
      rollout_step_count = length r.steps;
      trainer_step_count = length t.steps;
      rollout_assistant_steps = length rs;
      trainer_assistant_steps = length ts;
      first_divergence_step = map_option (λ f. f.0) first;
      first_divergence_kind = map_option (λ f. f.1) first;
      tool_choice_disagreement_rate = disagreement_rate (walk_all an rs ts);
      tool_call_jaccard = jaccard (tool_call_signature r) (tool_call_signature t);
      final_answer_match = matches.0;
      final_answer_match_soft = matches.1;
      rollout_terminal_reason = r.terminal_reason;
      trainer_terminal_reason = t.terminal_reason;
      same_step_count = nat_eq (length rs) (length ts);
      rollout_tool_signature = tool_call_signature r;
      trainer_tool_signature = tool_call_signature t;
      device = device;
      notes = get_or notes [];
      created_at = clock;
    })
