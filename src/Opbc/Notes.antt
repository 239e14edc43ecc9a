-- ===== src/Opbc/Notes.antt =====
-- `compute_budget_report` and `decide_group` of opbc.py agree on what is wrong with a group.
use streams_rollout_market.Prelude.{
  ◌≡◌, ◌≢◌, refl, sym, ◌∙◌, ◌↔◌, ◌⊎◌, ◌||◌, false, ltb_ℤ, ℤ, Option, List, [], ◌∷◌, Float, Floats,
  length, nat_eq, get_or, ok, raise, value_error, if◌then◌else◌, arith,
}
use streams_rollout_market.Contracts.{SampleGroup, BudgetReport, accepted, correctable, quarantined}
use streams_rollout_market.Opbc.Report.{
  BudgetPolicy, default_policy, flatten_rollout_logprobs, budget_notes, flips_exceed, report_of,
  compute_budget_report,
}
use streams_rollout_market.Opbc.Decide.{decide_group}
use streams_rollout_market.Opbc.Severity.{hard, decide_group-tests}

length_pos : (xs : List Float) → xs ≢ [] → nat_eq (length xs) 0 ≡ false
length_pos [] n = absurd (n refl)
length_pos (x ∷ xs) n = ground arith

-- No note exactly if no test of the ladder but the last one holds.
notes_accept :
    (fl : Floats) (p : BudgetPolicy) (ess clipped : Float) (lag : ℤ) (flip : Option Float)
    (veto : Float)
    → fl.lt (fl.of_nat 0) veto ≡ false
    → (budget_notes fl p ess clipped lag flip ≡ []) ↔ (
        (if fl.lt (fl.of_nat 0) veto
            || (ltb_ℤ p.max_policy_lag_steps lag
                || (fl.lt ess p.min_ess || flips_exceed fl flip p.max_router_flip_rate))
          then quarantined
          else if fl.lt p.max_clipped_fraction clipped
          then correctable
          else accepted)
        ≡ accepted)
unfolding budget_notes
notes_accept fl p ess clipped lag flip veto calm = (λ e. ground arith, λ e. ground arith)

module _ (fl : Floats) (group : SampleGroup) (logprobs : List Float) (given : Option BudgetPolicy)
    (flip : Option Float) where
  -- A report is made exactly if there is one trainer log-probability for each policy token, and at
  -- least one policy token; otherwise the call raises ValueError.
  pub compute_budget_report_total :
      ((length (flatten_rollout_logprobs group.trajectories) ≡ length logprobs)
        → flatten_rollout_logprobs group.trajectories ≢ []
        → (r : BudgetReport) × (compute_budget_report fl group logprobs given flip ≡ ok r))
      × (((length (flatten_rollout_logprobs group.trajectories) ≢ length logprobs)
            ⊎ (flatten_rollout_logprobs group.trajectories ≡ []))
          → compute_budget_report fl group logprobs given flip ≡ raise value_error)
  unfolding compute_budget_report
  compute_budget_report_total = (
    λ e n. (
      report_of fl group logprobs (flatten_rollout_logprobs group.trajectories)
          (get_or given (default_policy fl)) flip,
      ground (arith, length_pos (flatten_rollout_logprobs group.trajectories) n),
    ),
    λ h. ground arith,
  )

  report_notes :
      (r : BudgetReport)
      → compute_budget_report fl group logprobs given flip ≡ ok r
      → r.notes
        ≡ budget_notes fl
            (get_or given (default_policy fl))
            r.effective_sample_size
            r.clipped_fraction
            r.policy_lag_steps
            r.router_flip_rate
  unfolding compute_budget_report report_of
  report_notes r h = ground arith

  -- If no token was vetoed, the report carries no note exactly if the same policy accepts the group:
  -- the two functions apply the same limits.
  pub notes-decide_group :
      (r : BudgetReport)
      → compute_budget_report fl group logprobs given flip ≡ ok r
      → fl.lt (fl.of_nat 0) r.veto_fraction ≡ false
      → (r.notes ≡ []) ↔ ((decide_group fl r given).status ≡ accepted)
  unfolding hard
  notes-decide_group r h calm =
      let p = get_or given (default_policy fl) in
      let same =
        notes_accept fl p r.effective_sample_size r.clipped_fraction r.policy_lag_steps
          r.router_flip_rate r.veto_fraction calm in
      let status = (decide_group-tests fl r given).1 in
      let notes = report_notes r h in
      ((λ e. status ∙ same.0 (sym notes ∙ e)), (λ e. notes ∙ same.1 (sym status ∙ e)))
