-- ===== src/Hermes/Routing.antt =====
-- scripts/live/pair_hermes_moe_reports.py: the trainer's routing against the captured one.
use streams_rollout_market.Prelude.{
  get_elem?, lookup, ◌+◌, value_error, ◌>>=◌, raise, ok, Result, Dict, ◌<>◌, pos, length, eq_ℤ,
  Time, if◌then◌else◌, get_or, drop, Option, Floats, ℤ, Texts, String, List, zero, suc, ltb, ◌-◌,
  [], ◌∷◌, ℕ, none, some,
}
use streams_rollout_market.AgentLab.{AgentTrajectory, assistant_steps}
use streams_rollout_market.DenseLab.{EngineFingerprint}
use streams_rollout_market.RouterLab.{
  RouterTrace, RouterInput, RouterMismatchReport, new_router_trace, compute_router_mismatch,
}
use streams_rollout_market.Hermes.Inputs.{IndexEntry, Index}
use streams_rollout_market.Hermes.Pairing.{relabelled}

-- One entry of the trainer's output, with the keys that the script reads.
pub record RoutingEntry : Type 0 where
  pub prompt_idx : ℤ
  pub expert_ids : List (List (List ℤ))
  pub num_layers : ℤ
  pub num_experts : ℤ
  pub top_k : ℤ
  pub engine : Option String
  pub engine_fingerprint : Option String
  -- the value as an f-string prints it
  pub world_size : Option String

unfoldable pub routing_engine_from_entry : RoutingEntry → EngineFingerprint
routing_engine_from_entry e = record {
  name = engine_name;
  version = "torch-2.4";
  fingerprint =
      get_or e.engine_fingerprint ("sha256:" <> engine_name <> "-moe-" <> get_or e.world_size "?");
}
  where
    engine_name : String
    engine_name = get_or e.engine "fsdp"

-- `{t["prompt_idx"]: t for t in trainers}.get(idx)`: a later entry replaces an earlier one.
unfoldable pub routing_at : ℤ → List RoutingEntry → Option RoutingEntry
routing_at idx [] = none
routing_at idx (t ∷ ts) =
    let later = routing_at idx ts in
    elim later [ some found ↦ some found | none ↦ if eq_ℤ t.prompt_idx idx then some t else none ]

-- `xs[-n:]`, which is all of `xs` for n = 0.
abbrev pub last_of {ℓ} : {A : Type ℓ} → ℕ → List A → List A
last_of zero xs = xs
last_of (suc n) xs = drop (length xs - suc n) xs

-- The trainer's trace, cut to the tokens of the response.
unfoldable pub response_window : ℕ → List (List (List ℤ)) → List (List (List ℤ))
response_window rollout_len trainer =
    if ltb rollout_len (length trainer) then last_of rollout_len trainer else trainer

-- A trace with the trainer's shape.
abbrev pub trace_with : RoutingEntry → List (List (List ℤ)) → RouterTrace
trace_with t ids = record {
  num_layers = t.num_layers;
  num_experts = t.num_experts;
  top_k = t.top_k;
  expert_ids = ids;
}

module _ (py : Texts) (fl : Floats) where
  abbrev pub router_input :
      IndexEntry
      → RoutingEntry
      → AgentTrajectory
      → String
      → Option String
      → RouterTrace
      → RouterTrace
      → RouterInput
  router_input e t trajectory precision_class label rollout_trace trainer_trace =
      let trainer_engine = relabelled label (routing_engine_from_entry t) in
      let turn = py.str_int (pos e.assistant_turn_idx) in
      record {
        run_id =
            trajectory.rollout_engine.name <> "-vs-" <> trainer_engine.name <> "-" <> e.task_id
            <> "-turn" <> turn;
        model_id = trajectory.model_id;
        rollout_engine = trajectory.rollout_engine;
        trainer_engine = trainer_engine;
        rollout_trace = rollout_trace;
        trainer_trace = trainer_trace;
        notes = some (
            ("hermes-agent moe pair: trajectory_run_id="
              <> py.repr e.trajectory_run_id
              <> ", assistant_turn_idx="
              <> turn
              <> ", precision="
              <> precision_class)
            ∷ []);
        device = none;
      }

  -- The entry's comparison, once its parts are found.
  unfoldable pub compare_routing :
      Time
      → IndexEntry
      → RoutingEntry
      → AgentTrajectory
      → String
      → Option String
      → List (List (List ℤ))
      → Result RouterMismatchReport
  unfolding response_window routing_engine_from_entry
  compare_routing clock e t trajectory precision_class label routed = do
    rollout_trace ← new_router_trace (trace_with t routed)
    trainer_trace ← new_router_trace (trace_with t (response_window (length routed) t.expert_ids))
    compute_router_mismatch fl clock
        (router_input e t trajectory precision_class label rollout_trace trainer_trace)

  -- The body of the loop.
  unfoldable pub pair_routing :
      Time
      → List RoutingEntry
      → Dict AgentTrajectory
      → String
      → Option String
      → IndexEntry
      → Result RouterMismatchReport
  unfolding routing_at compare_routing assistant_steps
  pair_routing clock trainers trajectories precision_class label e =
      elim (routing_at (pos e.prompt_idx) trainers) [
        | none ↦ raise value_error
        | some t ↦ elim (lookup e.trajectory_run_id trajectories) [
          | none ↦ raise value_error
          | some trajectory ↦ elim (get_elem? (assistant_steps trajectory) e.assistant_turn_idx) [
            | none ↦ raise value_error
            | some step ↦ elim (step.response_routed_experts) [
              | none ↦ raise value_error
              | some routed ↦ compare_routing clock e t trajectory precision_class label routed
            ]
          ]
        ]
      ]

  -- The loop over the entries; `clocks` is the instant at each report's number.
  unfoldable pub pair_routings :
      (ℕ → Time)
      → List RoutingEntry
      → Dict AgentTrajectory
      → String
      → Option String
      → ℕ
      → List IndexEntry
      → Result (List RouterMismatchReport)
  unfolding pair_routing
  pair_routings clocks trainers trajectories precision_class label n [] = ok []
  pair_routings clocks trainers trajectories precision_class label n (e ∷ es) = do
    report ← pair_routing (clocks n) trainers trajectories precision_class label e
    rest ← pair_routings clocks trainers trajectories precision_class label (n + 1) es
    ok (report ∷ rest)

  unfoldable pub pair_router_reports :
      (ℕ → Time)
      → Index
      → List RoutingEntry
      → Dict AgentTrajectory
      → String
      → Option String
      → Result (List RouterMismatchReport)
  unfolding pair_routings
  pair_router_reports clocks index trainers trajectories precision_class label =
      pair_routings clocks trainers trajectories precision_class label 0 index.entries
