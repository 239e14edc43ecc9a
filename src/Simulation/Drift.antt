-- ===== src/Simulation/Drift.antt =====
-- The trainer's side of marketplace_simulation.py always has a decision for a group that can be scored.
use streams_rollout_market.Prelude.{
  some, refl, none, ◌+◌, ok, length-append, arith, [], ◌≢◌, ◌∷◌, ◌≡◌, ℤ, length, Float, List, All,
  Floats, ℕ,
}
use streams_rollout_market.Contracts.{SampleGroup, Trajectory}
use streams_rollout_market.Opbc.Report.{
  policy_logprobs, flatten_rollout_logprobs, report_of, default_policy, compute_budget_report,
}
use streams_rollout_market.Opbc.Decide.{decide_group}
use streams_rollout_market.Simulation.Rounds.{
  train_loop, train_all, train_logprobs_for, decide_for_clean_group,
}

module _ (fl : Floats) where
  length-train_loop :
      (idx : ℕ) (lps : List Float) (actions tools : List ℤ)
      → length lps ≡ length actions
      → length (policy_logprobs lps actions tools) ≡ length (train_loop fl idx actions tools)
  unfolding policy_logprobs train_loop
  length-train_loop idx [] [] tools h = refl
  length-train_loop idx [] (a ∷ actions) tools h = absurd (omega arith)
  length-train_loop idx (lp ∷ lps) [] tools h = absurd (omega arith)
  length-train_loop idx (lp ∷ lps) (a ∷ actions) [] h = refl
  length-train_loop idx (lp ∷ lps) (a ∷ actions) (t ∷ tools) h = ground (
    arith,
    length-train_loop (idx + 1) lps actions tools,
    length-train_loop idx lps actions tools,
  )

  length-train_all :
      (ts : List Trajectory)
      → All (λ t. length t.rollout_logprobs ≡ length t.action_mask) ts
      → length (flatten_rollout_logprobs ts) ≡ length (train_all fl ts)
  unfolding flatten_rollout_logprobs train_all
  length-train_all [] a = refl
  length-train_all (t ∷ ts) a = omega (
    arith,
    length-append (policy_logprobs t.rollout_logprobs t.action_mask t.tool_output_mask)
        (flatten_rollout_logprobs ts),
    length-append (train_loop fl 0 t.action_mask t.tool_output_mask) (train_all fl ts),
    length-train_loop 0 t.rollout_logprobs t.action_mask t.tool_output_mask a.0,
    length-train_all ts a.1,
  )

-- The trainer scores every token that the budget counts, so a group is always decided on: when every
-- trajectory has one log-probability per entry of its action mask, and at least one token counts.
pub decide_for_clean_group-ok :
    (fl : Floats) (g : SampleGroup)
    → All (λ t. length t.rollout_logprobs ≡ length t.action_mask) g.trajectories
    → flatten_rollout_logprobs g.trajectories ≢ []
    → decide_for_clean_group fl g
      ≡ ok (
          decide_group fl
            (report_of fl g
              (train_logprobs_for fl g)
              (flatten_rollout_logprobs g.trajectories)
              (default_policy fl)
              none)
            (some (default_policy fl)))
unfolding decide_for_clean_group compute_budget_report train_logprobs_for
decide_for_clean_group-ok fl g sized some_token =
    ground (arith, length-train_all fl g.trajectories sized)
