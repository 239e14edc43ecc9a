-- ===== src/Opbc/Severity.antt =====
-- What `decide_group` of opbc.py decides, and that more lag is never judged better.
use streams_rollout_market.Prelude.{
  ℕ, ◌≤◌, ◌≡◌, ◌≢◌, refl, ◌⊎◌, ◌↔◌, ℤ, ltb_ℤ, ◌<ℤ◌, ◌≤ℤ◌, ◌||◌, Bool, true, false, Option, none,
  some, [], Floats, get_or, ok, if◌then◌else◌, arith,
}
use streams_rollout_market.Contracts.{
  BudgetReport, accepted, correctable, quarantined, rejected, Action, train, train_with_correction,
  replay, quarantine, reject, new_group_decision,
}
use streams_rollout_market.Opbc.Report.{BudgetPolicy, default_policy, flips_exceed}
use streams_rollout_market.Opbc.Decide.{replay_reasons, decide_group}

-- The ladder of tests, as four equivalences.
path_of :
    (H M : Type 0) (h c m : Bool) (a : Action)
    → ((h ≡ true) ↔ H)
    → ((m ≡ true) ↔ M)
    → a
      ≡ (if h then quarantine else if c then train_with_correction else if m then replay else train)
    → ((a ≡ quarantine) ↔ H)
      × ((a ≡ train_with_correction) ↔ ((¬ H) × (c ≡ true)))
      × ((a ≡ replay) ↔ ((¬ H) × (¬ (c ≡ true)) × M))
      × ((a ≡ train) ↔ ((¬ H) × (¬ (c ≡ true)) × (¬ M)))
path_of H M true c m a hi mi e =
    let held : H = hi.0 refl in
    (
      (λ _. held, λ _. e),
      (λ x. absurd (ground arith), λ x. absurd (x.0 held)),
      (λ x. absurd (ground arith), λ x. absurd (x.0 held)),
      (λ x. absurd (ground arith), λ x. absurd (x.0 held)),
    )
path_of H M false true m a hi mi e =
    let clear : ¬ H = λ x. absurd (cc (hi.1 x)) in
    (
      (λ x. absurd (ground arith), λ x. absurd (clear x)),
      (λ _. (clear, refl), λ _. e),
      (λ x. absurd (ground arith), λ x. absurd (x.1 refl)),
      (λ x. absurd (ground arith), λ x. absurd (x.1 refl)),
    )
path_of H M false false true a hi mi e =
    let clear : ¬ H = λ x. absurd (cc (hi.1 x)) in
    (
      (λ x. absurd (ground arith), λ x. absurd (clear x)),
      (λ x. absurd (ground arith), λ x. absurd (cc (x.1))),
      (λ _. (clear, (λ x. cc), mi.0 refl), λ _. e),
      (λ x. absurd (ground arith), λ x. absurd (x.2 (mi.0 refl))),
    )
path_of H M false false false a hi mi e =
    let clear : ¬ H = λ x. absurd (cc (hi.1 x)) in
    let calm : ¬ M = λ x. absurd (cc (mi.1 x)) in
    (
      (λ x. absurd (ground arith), λ x. absurd (clear x)),
      (λ x. absurd (ground arith), λ x. absurd (cc (x.1))),
      (λ x. absurd (ground arith), λ x. absurd (calm x.2)),
      (λ _. (clear, (λ x. cc), calm), λ _. e),
    )

module _ (fl : Floats) (report : BudgetReport) (given : Option BudgetPolicy) where
  abbrev pub policy : BudgetPolicy
  policy = get_or given (default_policy fl)

  -- Beyond one of these limits a group is set aside.
  abbrev pub IsOverHardLimit : Type 0
  IsOverHardLimit =
      (fl.lt (fl.of_nat 0) report.veto_fraction ≡ true)
      ⊎ ((policy.max_policy_lag_steps <ℤ report.policy_lag_steps)
          ⊎ ((fl.lt report.effective_sample_size policy.min_ess ≡ true)
              ⊎ (flips_exceed fl report.router_flip_rate policy.max_router_flip_rate ≡ true)))

  -- The weights were clipped too often.
  abbrev pub IsClipped : Type 0
  IsClipped = fl.lt policy.max_clipped_fraction report.clipped_fraction ≡ true

  -- Moderately stale, or a moderate sample size.
  abbrev pub IsModerate : Type 0
  IsModerate =
      (policy.replay_lag_threshold <ℤ report.policy_lag_steps)
      ⊎ (fl.lt report.effective_sample_size policy.replay_ess_threshold ≡ true)

  -- The tests as one Boolean, for the proofs.
  unfoldable pub hard : Bool
  hard =
      fl.lt (fl.of_nat 0) report.veto_fraction
      || (ltb_ℤ policy.max_policy_lag_steps report.policy_lag_steps
          || (fl.lt report.effective_sample_size policy.min_ess
              || flips_exceed fl report.router_flip_rate policy.max_router_flip_rate))

  unfoldable pub moderate : Bool
  moderate =
      ltb_ℤ policy.replay_lag_threshold report.policy_lag_steps
      || fl.lt report.effective_sample_size policy.replay_ess_threshold

  hard_iff : (hard ≡ true) ↔ IsOverHardLimit
  unfolding hard
  hard_iff = (λ h. ground arith, λ h. ground arith)

  moderate_iff : (moderate ≡ true) ↔ IsModerate
  unfolding moderate
  moderate_iff = (λ h. ground arith, λ h. ground arith)

  -- The status and the action, from the three tests.
  pub decide_group-tests :
      ((decide_group fl report given).recommended_action ≡ (
        if hard
        then quarantine
        else if fl.lt policy.max_clipped_fraction report.clipped_fraction
        then train_with_correction
        else if moderate
        then replay
        else train))
      × ((decide_group fl report given).status ≡ (
          if hard
          then quarantined
          else if fl.lt policy.max_clipped_fraction report.clipped_fraction
          then correctable
          else accepted))
  unfolding decide_group hard moderate replay_reasons
  decide_group-tests = (ground arith, ground arith)

  -- The graduated path: a group is set aside exactly if it is over a hard limit; otherwise it needs
  -- correction exactly if too many weights were clipped; otherwise it is replayed exactly if it is
  -- moderately stale or has a moderate sample size, and trained on if neither.
  pub decide_group_path :
      (((decide_group fl report given).recommended_action ≡ quarantine) ↔ IsOverHardLimit)
      × (((decide_group fl report given).recommended_action ≡ train_with_correction)
          ↔ ((¬ IsOverHardLimit) × IsClipped))
      × (((decide_group fl report given).recommended_action ≡ replay)
          ↔ ((¬ IsOverHardLimit) × (¬ IsClipped) × IsModerate))
      × (((decide_group fl report given).recommended_action ≡ train)
          ↔ ((¬ IsOverHardLimit) × (¬ IsClipped) × (¬ IsModerate)))
  decide_group_path =
      path_of IsOverHardLimit IsModerate hard
        (fl.lt policy.max_clipped_fraction report.clipped_fraction) moderate
        (decide_group fl report given).recommended_action hard_iff moderate_iff decide_group-tests.0

  -- Whatever the report, `decide_group` builds a decision that pydantic accepts, for the report's
  -- group and with the report attached, never a rejection, and with at least one reason.
  pub decide_group-built :
      (let d = decide_group fl report given in
        (new_group_decision d ≡ ok d)
        × (d.group_id ≡ report.group_id)
        × (d.budget_report ≡ some report)
        × (d.status ≢ rejected)
        × (d.decision_reasons ≢ []))
  unfolding decide_group new_group_decision
  decide_group-built =
      (ground arith, ground arith, ground arith, λ e. ground arith, λ e. ground arith)

-- From the mildest action to the hardest.
abbrev pub severity : Action → ℕ
severity train = 0
severity replay = 1
severity train_with_correction = 2
severity quarantine = 3
severity reject = 4

-- A report with more policy lag, and otherwise the same, is never judged more mildly.
pub decide_group_mono :
    (fl : Floats) (report : BudgetReport) (given : Option BudgetPolicy) (lag : ℤ)
    → report.policy_lag_steps ≤ℤ lag
    → severity (decide_group fl report given).recommended_action
      ≤ severity
          (decide_group fl (record report { policy_lag_steps = lag }) given).recommended_action
unfolding hard moderate
decide_group_mono fl report given lag h =
    rw
      (
        (decide_group-tests fl report given).0,
        (decide_group-tests fl (record report { policy_lag_steps = lag }) given).0,
      )
      (ground arith)

pub decide_group-rejection_reason :
    (fl : Floats) (report : BudgetReport) (given : Option BudgetPolicy)
    → (decide_group fl report given).rejection_reason ≡ none
unfolding decide_group
decide_group-rejection_reason fl report given = ground arith
