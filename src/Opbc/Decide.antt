-- ===== src/Opbc/Decide.antt =====
-- `decide_group` of opbc.py.
use streams_rollout_market.Prelude.{
  ltb_ℤ, String, Bool, true, false, Option, none, some, List, [], ◌∷◌, ◌++◌, Floats, get_or, ◌<>◌,
  if◌then◌else◌,
}
use streams_rollout_market.Contracts.{
  BudgetReport, GroupDecision, GroupStatus, accepted, correctable, quarantined, DecisionReason,
  within_budget, high_clipped_fraction, low_ess, replay_tier_lag, replay_tier_ess, stale_policy_lag,
  veto_threshold_exceeded, high_router_flip_rate, reason_value, Action, train,
  train_with_correction, replay, quarantine,
}
use streams_rollout_market.Opbc.Report.{BudgetPolicy, default_policy, flips_exceed}

-- `", ".join(r.value for r in reasons)`
unfoldable pub format_reasons : List DecisionReason → String
unfolding reason_value
format_reasons [] = ""
format_reasons (r ∷ []) = reason_value r
format_reasons (r ∷ r' ∷ rs) = reason_value r <> ", " <> format_reasons (r' ∷ rs)

abbrev pub decision : BudgetReport → GroupStatus → List DecisionReason → Action → GroupDecision
decision report status reasons action = record {
  group_id = report.group_id;
  status = status;
  reason = format_reasons reasons;
  rejection_reason = none;
  decision_reasons = reasons;
  budget_report = some report;
  recommended_action = action;
}

-- `if test: reasons.append(r)`
abbrev pub reason_if : Bool → DecisionReason → List DecisionReason
reason_if true r = r ∷ []
reason_if false r = []

module _ (fl : Floats) where
  unfoldable pub quarantine_reasons : BudgetReport → BudgetPolicy → List DecisionReason
  unfolding flips_exceed
  quarantine_reasons report policy =
      reason_if (ltb_ℤ policy.max_policy_lag_steps report.policy_lag_steps) stale_policy_lag
      ++ reason_if (fl.lt report.effective_sample_size policy.min_ess) low_ess
      ++ reason_if (flips_exceed fl report.router_flip_rate policy.max_router_flip_rate)
          high_router_flip_rate

  unfoldable pub replay_reasons : BudgetReport → BudgetPolicy → List DecisionReason
  replay_reasons report policy =
      reason_if (ltb_ℤ policy.replay_lag_threshold report.policy_lag_steps) replay_tier_lag
      ++ reason_if (fl.lt report.effective_sample_size policy.replay_ess_threshold) replay_tier_ess

  -- The last two branches: replay, or train.
  replay_or_train : BudgetReport → List DecisionReason → GroupDecision
  replay_or_train report [] = decision report accepted (within_budget ∷ []) train
  replay_or_train report (r ∷ rs) = decision report accepted (r ∷ rs) replay

  -- The branches after the veto.
  quarantine_or_go_on : BudgetReport → BudgetPolicy → List DecisionReason → GroupDecision
  unfolding replay_reasons replay_or_train
  quarantine_or_go_on report policy (r ∷ rs) = decision report quarantined (r ∷ rs) quarantine
  quarantine_or_go_on report policy [] =
      if fl.lt policy.max_clipped_fraction report.clipped_fraction
      then decision report correctable (high_clipped_fraction ∷ []) train_with_correction
      else replay_or_train report (replay_reasons report policy)

  unfoldable pub decide_group : BudgetReport → Option BudgetPolicy → GroupDecision
  unfolding quarantine_reasons quarantine_or_go_on
  decide_group report given =
      let policy = get_or given (default_policy fl) in
      if fl.lt (fl.of_nat 0) report.veto_fraction
      then decision report quarantined (veto_threshold_exceeded ∷ []) quarantine
      else quarantine_or_go_on report policy (quarantine_reasons report policy)
