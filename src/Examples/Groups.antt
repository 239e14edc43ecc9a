-- ===== src/Examples/Groups.antt =====
-- The checks and the budget of one group.
use streams_rollout_market.Prelude.{
  ◌≤◌, ◌≡◌, ◌≢◌, ◌↔◌, refl, pos, none, some, List, [], ◌∷◌, arith, ok, Float,
}
use streams_rollout_market.Contracts.{
  expired_lease, GroupDecision, BudgetReport, train, train_with_correction, replay, quarantine,
  rejected, new_group_decision, is_expired,
}
use streams_rollout_market.Validators.{rejection, validate_group_against_lease}
use streams_rollout_market.Validators.Clean.{IsClean, validate_iff}
use streams_rollout_market.Validators.Reasons.{Violates, validate-Violates}
use streams_rollout_market.Opbc.Report.{
  default_policy, flatten_rollout_logprobs, report_of, compute_budget_report,
}
use streams_rollout_market.Opbc.Decide.{decide_group}
use streams_rollout_market.Opbc.Severity.{
  IsOverHardLimit, IsClipped, IsModerate, severity, decide_group_path, decide_group_mono,
  decide_group-built,
}
use streams_rollout_market.Examples.Data.{texts, floats, manifest, lease, group, report}

validate_iff_example :
    (validate_group_against_lease texts floats group lease manifest (some 10) 0 ≡ none)
    ↔ IsClean floats group lease manifest 10
validate_iff_example = validate_iff texts floats group lease manifest (some 10) 0 (omega arith)

abbrev late : GroupDecision
late = rejection "g" expired_lease "lease lease-1 expired at "

late_found : validate_group_against_lease texts floats group lease manifest (some 200) 0 ≡ some late
unfolding validate_group_against_lease is_expired
late_found = refl

validate-Violates_example : Violates floats group lease manifest 200 expired_lease
validate-Violates_example =
    validate-Violates texts floats group lease manifest (some 200) 0 late (omega arith) late_found
      expired_lease (unfold rejection in refl)

decide_group_path_example :
    (((decide_group floats report none).recommended_action ≡ quarantine)
      ↔ IsOverHardLimit floats report none)
    × (((decide_group floats report none).recommended_action ≡ train_with_correction)
        ↔ ((¬ IsOverHardLimit floats report none) × IsClipped floats report none))
    × (((decide_group floats report none).recommended_action ≡ replay) ↔ (
        (¬ IsOverHardLimit floats report none)
        × (¬ IsClipped floats report none)
        × IsModerate floats report none))
    × (((decide_group floats report none).recommended_action ≡ train) ↔ (
        (¬ IsOverHardLimit floats report none)
        × (¬ IsClipped floats report none)
        × (¬ IsModerate floats report none)))
decide_group_path_example = decide_group_path floats report none

decide_group_mono_example :
    severity (decide_group floats report none).recommended_action
    ≤ severity
        (decide_group floats (record report { policy_lag_steps = pos 5 }) none).recommended_action
decide_group_mono_example = decide_group_mono floats report none (pos 5) (omega arith)

decide_group-built_example :
    (let d = decide_group floats report none in
      (new_group_decision d ≡ ok d)
      × (d.group_id ≡ report.group_id)
      × (d.budget_report ≡ some report)
      × (d.status ≢ rejected)
      × (d.decision_reasons ≢ []))
decide_group-built_example = decide_group-built floats report none

abbrev trainer_logprobs : List Float
trainer_logprobs = 3 ∷ []

abbrev made : BudgetReport
made = report_of floats group trainer_logprobs trainer_logprobs (default_policy floats) none

made_found : compute_budget_report floats group trainer_logprobs none none ≡ ok made
unfolding compute_budget_report flatten_rollout_logprobs
made_found = refl
