-- ===== src/Examples/Measures.antt =====
-- The labs' measures at small inputs.
use streams_rollout_market.Prelude.{◌≤◌, ok, ◌≡◌, pos, arith, Sums, [], ◌∷◌, ℕ, none, some, refl}
use streams_rollout_market.DenseLab.{EngineFingerprint}
use streams_rollout_market.MismatchMetrics.{summarize_logprob_mismatch}
use streams_rollout_market.MismatchMetrics.Selection.{summarize-select}
use streams_rollout_market.RouterLab.{
  experts_valid, layers_valid, tokens_valid, RouterTrace, RouterInput, RouterMismatchReport,
  new_router_trace, num_tokens, compute_router_mismatch,
}
use streams_rollout_market.RouterLab.Bounds.{IsAligned, compute_router_mismatch_bounds}
use streams_rollout_market.Examples.Data.{floats}

-- Sums of natural numbers.
abbrev pub sums : Sums
sums = record { sum = λ xs. 1; fmean = λ xs. ok 0; exp = λ x. ok x; truncate = λ x. pos x }

-- The mask leaves the second token out.
summarize-select_example :
    summarize_logprob_mismatch floats sums
      (1 ∷ 2 ∷ [])
      (3 ∷ 4 ∷ [])
      (some (pos 1 ∷ pos 0 ∷ []))
      20
      30
    ≡ summarize_logprob_mismatch floats sums (1 ∷ []) (3 ∷ []) none 20 30
summarize-select_example =
    summarize-select floats sums (1 ∷ 2 ∷ []) (3 ∷ 4 ∷ []) (pos 1 ∷ pos 0 ∷ []) 20 30 refl refl

-- One token, one layer, the better of two experts.
abbrev trace : ℕ → RouterTrace
trace expert = record {
  num_layers = pos 1;
  num_experts = pos 2;
  top_k = pos 1;
  expert_ids = ((pos expert ∷ []) ∷ []) ∷ [];
}

abbrev engine : EngineFingerprint
engine = record { name = "vllm"; version = "1"; fingerprint = "f" }

abbrev routing : RouterInput
routing = record {
  run_id = "run";
  model_id = "model";
  rollout_engine = engine;
  trainer_engine = engine;
  rollout_trace = trace 0;
  trainer_trace = trace 1;
  notes = none;
  device = none;
}

trace_built :
    (new_router_trace (trace 0) ≡ ok (trace 0)) × (new_router_trace (trace 1) ≡ ok (trace 1))
unfolding new_router_trace tokens_valid layers_valid experts_valid
trace_built = (refl, refl)

routing-IsAligned : IsAligned (trace 0) (trace 1)
unfolding num_tokens
routing-IsAligned = record {
  layers = refl;
  experts = refl;
  top = refl;
  length_eq = refl;
  some_token = omega arith;
}

compute_router_mismatch_bounds_example :
    (report : RouterMismatchReport) × (flips : ℕ) × (count : ℕ) × (compute_router_mismatch floats 0
        routing
      ≡ ok report)
    × ((report.router_flip_rate ≡ floats.divide (floats.of_nat flips) (floats.of_nat 1))
        × (flips ≤ 1)
        × (report.token_expert_disagreement_rate
            ≡ floats.divide (floats.of_nat count) (floats.of_nat 1))
        × (count ≤ 1))
unfolding num_tokens
compute_router_mismatch_bounds_example =
    compute_router_mismatch_bounds floats 0 routing trace_built.0 trace_built.1 routing-IsAligned
