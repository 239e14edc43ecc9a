-- ===== src/Hermes/Windows.antt =====
-- The response window of pair_hermes_moe_reports.py: which tokens are compared.
use streams_rollout_market.RouterLab.Bounds.{compute_router_mismatch_bounds}
use streams_rollout_market.Hermes.Inputs.{IndexEntry}
use streams_rollout_market.AgentLab.{assistant_steps, AgentStep, AgentTrajectory}
use streams_rollout_market.Prelude.{
  inr, inl, ltb, ap, Bool-cases, ◌++◌, take, ◌∙◌, sym, pos_part, get_elem?, ◌*◌, lookup, some, pos,
  Option, String, Time, Floats, Texts, Dict, ◌+◌, ◌-◌, drop, true, length, arith, ◌≤◌, ℤ, ok, ◌≡◌,
  List, [], ◌∷◌, ℕ, zero, suc, refl,
}
use streams_rollout_market.RouterLab.{
  RouterInput, compute_router_mismatch, RouterTrace, RouterMismatchReport, num_tokens,
  new_router_trace, layers_valid, tokens_valid,
}
use streams_rollout_market.Hermes.Routing.{
  router_input, pair_routing, compare_routing, routing_at, RoutingEntry, response_window,
  trace_with,
}

length-drop {ℓ} :
    {A : Type ℓ} (n : ℕ) (xs : List A) → n ≤ length xs → length (drop n xs) + n ≡ length xs
length-drop zero xs h = omega arith
length-drop (suc n) [] h = absurd (omega arith)
length-drop (suc n) (x ∷ xs) h = omega (arith, length-drop n xs (omega arith))

append-take {ℓ} : {A : Type ℓ} (n : ℕ) (xs : List A) → xs ≡ take n xs ++ drop n xs
append-take zero xs = refl
append-take (suc n) [] = refl
append-take (suc n) (x ∷ xs) = ap (λ l. x ∷ l) (append-take n xs)

-- The window is the end of the trainer's trace.
response_window-suffix :
    (n : ℕ) (xs : List (List (List ℤ)))
    → (before : List (List (List ℤ))) × (xs ≡ before ++ response_window n xs)
unfolding response_window
response_window-suffix zero xs = ([], ground arith)
response_window-suffix (suc n) xs = elim (Bool-cases (ltb (suc n) (length xs))) [
  | inl e ↦ (take (length xs - suc n) xs, rw e (append-take (length xs - suc n) xs))
  | inr e ↦ ([], rw e refl)
]

length-response_window :
    (n : ℕ) (xs : List (List (List ℤ))) → 1 ≤ n → n ≤ length xs → length (response_window n xs) ≡ n
unfolding response_window
length-response_window zero xs h g = absurd (omega arith)
length-response_window (suc n) xs h g =
    ground (arith, length-drop (length xs - suc n) xs (omega arith))

module _ (t : RoutingEntry) (a b : List (List (List ℤ))) where
  layers_valid-trace_with :
      (ls : List (List ℤ)) → layers_valid (trace_with t a) ls ≡ layers_valid (trace_with t b) ls
  unfolding layers_valid
  layers_valid-trace_with [] = refl
  layers_valid-trace_with (l ∷ ls) = ground (arith, layers_valid-trace_with ls)

  tokens_valid-drop :
      (n : ℕ) (xs : List (List (List ℤ)))
      → tokens_valid (trace_with t a) xs ≡ true
      → tokens_valid (trace_with t b) (drop n xs) ≡ true
  unfolding tokens_valid
  tokens_valid-drop zero [] h = refl
  tokens_valid-drop zero (x ∷ xs) h =
      ground (arith, layers_valid-trace_with x, tokens_valid-drop zero xs)
  tokens_valid-drop (suc n) [] h = refl
  tokens_valid-drop (suc n) (x ∷ xs) h = tokens_valid-drop n xs (ground arith)

tokens_valid-response_window :
    (t : RoutingEntry) (b : List (List (List ℤ))) (n : ℕ)
    → tokens_valid (trace_with t t.expert_ids) t.expert_ids ≡ true
    → tokens_valid (trace_with t b) (response_window n t.expert_ids) ≡ true
unfolding response_window
tokens_valid-response_window t b zero h =
    ground (arith, tokens_valid-drop t t.expert_ids b zero t.expert_ids h)
tokens_valid-response_window t b (suc n) h = ground (
  arith,
  tokens_valid-drop t t.expert_ids b zero t.expert_ids h,
  tokens_valid-drop t t.expert_ids b (length t.expert_ids - suc n) t.expert_ids h,
)

-- A part of a trace that pydantic accepts is accepted.
window-built :
    (t : RoutingEntry) (n : ℕ)
    → new_router_trace (trace_with t t.expert_ids) ≡ ok (trace_with t t.expert_ids)
    → (let w = trace_with t (response_window n t.expert_ids) in new_router_trace w ≡ ok w)
unfolding new_router_trace
window-built t n h =
    ground (arith, tokens_valid-response_window t (response_window n t.expert_ids) n (ground arith))

-- What a turn has when its routing can be compared: the trainer's answer with at least as many tokens,
-- the run, the step and its captured routing of at least one token, in shapes that pydantic accepts.
pub record IsRoutable (trainers : List RoutingEntry) (trajectories : Dict AgentTrajectory)
    (e : IndexEntry) (t : RoutingEntry) (trajectory : AgentTrajectory) (step : AgentStep)
    (routed : List (List (List ℤ))) : Type 0 where
  pub answered : routing_at (pos e.prompt_idx) trainers ≡ some t
  pub known : lookup e.trajectory_run_id trajectories ≡ some trajectory
  pub turn_found : get_elem? (assistant_steps trajectory) e.assistant_turn_idx ≡ some step
  pub captured : step.response_routed_experts ≡ some routed
  pub some_token : 1 ≤ length routed
  pub covered : length routed ≤ length t.expert_ids
  pub rollout_built : new_router_trace (trace_with t routed) ≡ ok (trace_with t routed)
  pub trainer_built : new_router_trace (trace_with t t.expert_ids) ≡ ok (trace_with t t.expert_ids)

module _ (py : Texts) (fl : Floats) (clock : Time) (trainers : List RoutingEntry)
    (trajectories : Dict AgentTrajectory) (precision : String) (label : Option String)
    (e : IndexEntry) (t : RoutingEntry) (trajectory : AgentTrajectory) (step : AgentStep)
    (routed : List (List (List ℤ))) where
  pair_routing-compare :
      IsRoutable trainers trajectories e t trajectory step routed
      → pair_routing py fl clock trainers trajectories precision label e
        ≡ compare_routing py fl clock e t trajectory precision label routed
  unfolding pair_routing
  pair_routing-compare r = ground (arith, r.answered, r.known, r.turn_found, r.captured)

  compare_routing-compute :
      (w : RouterTrace)
      → new_router_trace (trace_with t routed) ≡ ok (trace_with t routed)
      → w ≡ trace_with t (response_window (length routed) t.expert_ids)
      → new_router_trace w ≡ ok w
      → compare_routing py fl clock e t trajectory precision label routed
        ≡ compute_router_mismatch fl clock
            (router_input py fl e t trajectory precision label (trace_with t routed) w)
  unfolding compare_routing
  compare_routing-compute w built same window = ground (arith, built, same, window)

  -- Each index entry whose turn can be compared gives a report: of the trainer's trace, which also
  -- covers the prompt, the last tokens, as many as the response has, are compared with the captured
  -- routing, under the model and the rollout engine of the run; and the flips are at most the pairs of
  -- a token and a layer.
  pub pair_routing-bounds :
      IsRoutable trainers trajectories e t trajectory step routed
      → (before window : List (List (List ℤ))) × (input : RouterInput)
        × (report : RouterMismatchReport) × (flips : ℕ) × (t.expert_ids ≡ before ++ window)
        × (length window ≡ length routed)
        × (input.rollout_trace ≡ trace_with t routed)
        × (input.trainer_trace ≡ trace_with t window)
        × (input.model_id ≡ trajectory.model_id)
        × (input.rollout_engine ≡ trajectory.rollout_engine)
        × (compute_router_mismatch fl clock input ≡ ok report)
        × (pair_routing py fl clock trainers trajectories precision label e ≡ ok report)
        × (let pairs = length routed * pos_part t.num_layers in
            (report.router_flip_rate ≡ fl.divide (fl.of_nat flips) (fl.of_nat pairs))
            × (flips ≤ pairs))
  unfolding num_tokens
  pair_routing-bounds r =
      let window = response_window (length routed) t.expert_ids in
      let w = trace_with t window in
      let input = router_input py fl e t trajectory precision label (trace_with t routed) w in
      let built = window-built t (length routed) r.trainer_built in
      let (before, cut) = response_window-suffix (length routed) t.expert_ids in
      let long = length-response_window (length routed) t.expert_ids r.some_token r.covered in
      let (report, flips, count, done, (rate, bound, rate', bound')) =
        compute_router_mismatch_bounds fl clock input r.rollout_built built (record {
          layers = ground arith;
          experts = ground arith;
          top = ground arith;
          length_eq = sym long;
          some_token = r.some_token;
        }) in
      (
        before,
        window,
        input,
        report,
        flips,
        cut,
        long,
        refl,
        refl,
        refl,
        refl,
        done,
        pair_routing-compare r ∙ compare_routing-compute w r.rollout_built refl built ∙ done,
        (rate, bound),
      )
