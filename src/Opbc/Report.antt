-- ===== src/Opbc/Report.antt =====
-- `BudgetPolicy` and `compute_budget_report` of opbc.py, over the floats of the interface.
use streams_rollout_market.Prelude.{
  ℤ, pos, ltb_ℤ, eq_ℤ, String, Bool, true, false, not, ◌&&◌, Option, none, some, List, [], ◌∷◌,
  ◌++◌, map, length, Float, Floats, get_or, nat_eq, Result, ok, raise_if, ◌>>◌, value_error,
  if◌then◌else◌,
}
use streams_rollout_market.Contracts.{SampleGroup, Trajectory, BudgetReport}

pub record BudgetPolicy : Type 0 where
  pub clamp : Float
  pub min_ess : Float
  pub replay_ess_threshold : Float
  pub max_clipped_fraction : Float
  pub max_policy_lag_steps : ℤ
  pub replay_lag_threshold : ℤ
  pub veto_abs_log_ratio : Float
  pub max_router_flip_rate : Float

-- `BudgetPolicy()`
unfoldable pub default_policy : Floats → BudgetPolicy
default_policy fl = record {
  clamp = fl.literal 200 1;
  min_ess = fl.literal 30 2;
  replay_ess_threshold = fl.literal 60 2;
  max_clipped_fraction = fl.literal 10 2;
  max_policy_lag_steps = pos 8;
  replay_lag_threshold = pos 4;
  veto_abs_log_ratio = fl.literal 300 1;
  max_router_flip_rate = fl.literal 15 2;
}

-- `action and not tool`
abbrev pub is_policy_token : ℤ → ℤ → Bool
is_policy_token action tool = not (eq_ℤ action (pos 0)) && eq_ℤ tool (pos 0)

-- The loop over `zip(logprobs, action_mask, tool_output_mask)`.
unfoldable pub policy_logprobs : List Float → List ℤ → List ℤ → List Float
policy_logprobs (lp ∷ lps) (action ∷ actions) (tool ∷ tools) =
    let rest = policy_logprobs lps actions tools in
    if is_policy_token action tool then lp ∷ rest else rest
policy_logprobs _ _ _ = []

unfoldable pub flatten_rollout_logprobs : List Trajectory → List Float
unfolding policy_logprobs
flatten_rollout_logprobs [] = []
flatten_rollout_logprobs (t ∷ ts) =
    policy_logprobs t.rollout_logprobs t.action_mask t.tool_output_mask
    ++ flatten_rollout_logprobs ts

-- `router_flip_rate is not None and router_flip_rate > limit`
unfoldable pub flips_exceed : Floats → Option Float → Float → Bool
flips_exceed fl none limit = false
flips_exceed fl (some rate) limit = fl.lt limit rate

abbrev note_if : Bool → String → List String
note_if true note = note ∷ []
note_if false note = []

-- The four notes, in the order in which the code appends them.
unfoldable pub budget_notes : Floats → BudgetPolicy → Float → Float → ℤ → Option Float → List String
budget_notes fl policy ess clipped_fraction lag router_flip_rate =
    note_if (fl.lt ess policy.min_ess) "low effective sample size"
    ++ note_if (fl.lt policy.max_clipped_fraction clipped_fraction) "high clipped fraction"
    ++ note_if (ltb_ℤ policy.max_policy_lag_steps lag) "policy lag exceeds limit"
    ++ note_if (flips_exceed fl router_flip_rate policy.max_router_flip_rate)
        "router_flip_rate exceeds limit"

module _ (fl : Floats) where
  -- `train - rollout`, element by element
  unfoldable pub differences : List Float → List Float → List Float
  differences (t ∷ ts) (r ∷ rs) = fl.minus t r ∷ differences ts rs
  differences _ _ = []

  -- `np.mean(np.abs(xs) > limit)`
  unfoldable pub fraction_above : Float → List Float → Float
  fraction_above limit xs =
      fl.mean (map (λ x. if fl.lt limit (fl.absolute x) then fl.of_nat 1 else fl.of_nat 0) xs)

  -- the report of a group with at least one policy token
  unfoldable pub report_of :
      SampleGroup → List Float → List Float → BudgetPolicy → Option Float → BudgetReport
  report_of group train rollout policy router_flip_rate =
      let log_ratio = differences train rollout in
      let clipped = map (λ x. fl.clip x (fl.negate policy.clamp) policy.clamp) log_ratio in
      let weights = map fl.exponential clipped in
      let squares = map (λ w. fl.times w w) weights in
      let weight_sum = fl.total weights in
      let ess =
        fl.divide (fl.times weight_sum weight_sum)
          (fl.times (fl.of_nat (length weights)) (fl.total squares)) in
      let clipped_fraction = fraction_above policy.clamp log_ratio in
      let veto_fraction = fraction_above policy.veto_abs_log_ratio log_ratio in
      record {
        group_id = group.group_id;
        mean_weight = fl.mean weights;
        std_weight = fl.std weights;
        second_moment = fl.mean squares;
        effective_sample_size = ess;
        clipped_fraction = clipped_fraction;
        veto_fraction = veto_fraction;
        max_abs_log_ratio = fl.largest (map fl.absolute log_ratio);
        policy_lag_steps = group.policy_lag_steps;
        router_flip_rate = router_flip_rate;
        notes = budget_notes fl policy ess clipped_fraction group.policy_lag_steps router_flip_rate;
      }

  unfoldable pub compute_budget_report :
      SampleGroup → List Float → Option BudgetPolicy → Option Float → Result BudgetReport
  compute_budget_report group train policy router_flip_rate = do
    let rollout = flatten_rollout_logprobs group.trajectories
    raise_if (not (nat_eq (length rollout) (length train))) value_error
    raise_if (nat_eq (length rollout) 0) value_error
    ok (report_of group train rollout (get_or policy (default_policy fl)) router_flip_rate)
