-- ===== src/Simulation/Stale.antt =====
-- The stale profile of marketplace_simulation.py: its groups pass the checks and are never trained on.
use streams_rollout_market.Prelude.{
  some, subst, negsuc, ℤ, none, pos, arith, ok, ◌≡◌, Time, Floats, ℕ, zero, suc, refl, inl, inr,
}
use streams_rollout_market.Contracts.{
  RolloutLease, SampleGroup, GroupDecision, quarantine, new_trajectory, new_sample_group,
}
use streams_rollout_market.Opbc.Report.{flatten_rollout_logprobs, report_of, default_policy}
use streams_rollout_market.Opbc.Severity.{decide_group_path}
use streams_rollout_market.Simulation.Profiles.{WorkerProfile, stale, Draws, make_group, group_of}
use streams_rollout_market.Simulation.Rounds.{decide_for_clean_group, train_logprobs_for}
use streams_rollout_market.Simulation.Samples.{sample, make_group-ok}
use streams_rollout_market.Simulation.Scoring.{group_of-decide}

-- A group is only made for a lease of at least one sample.
make_group-size :
    (fl : Floats) (l : RolloutLease) (p : WorkerProfile) (draws : Draws) (clock : Time)
    (g : SampleGroup)
    → make_group fl l p draws clock ≡ ok g
    → (n : ℕ) × (l.group_size ≡ pos (suc n))
unfolding make_group new_trajectory new_sample_group group_of
make_group-size fl l p draws clock g h = go l.group_size refl
  where
    go : (k : ℤ) → l.group_size ≡ k → (n : ℕ) × (l.group_size ≡ pos (suc n))
    go (pos zero) e = absurd (ground (arith, h, e))
    go (pos (suc n)) e = (n, e)
    go (negsuc n) e = absurd (ground (arith, h, e))

-- A group of the stale profile is never trained on: the trainer's side decides on it, whatever the
-- floats, and sets it aside, since its policy lag of 12 steps is over the limit of 8; for any group
-- that `make_group` returns.
pub decide_for_clean_group_stale :
    (fl : Floats) (l : RolloutLease) (draws : Draws) (clock : Time) (g : SampleGroup)
    → make_group fl l stale draws clock ≡ ok g
    → (d : GroupDecision) × (decide_for_clean_group fl g ≡ ok d)
      × (d.recommended_action ≡ quarantine)
unfolding report_of default_policy group_of
decide_for_clean_group_stale fl l draws clock g h =
    let (n, size) = make_group-size fl l stale draws clock g h in
    let made = group_of fl l stale (sample fl l draws clock stale) clock in
    let same : made ≡ g = ground (arith, h, make_group-ok fl l draws clock stale (n, size)) in
    let report =
      report_of fl made (train_logprobs_for fl made) (flatten_rollout_logprobs made.trajectories)
        (default_policy fl) none in
    subst
      (λ x.
        (d : GroupDecision) × (decide_for_clean_group fl x ≡ ok d)
        × (d.recommended_action ≡ quarantine))
      same
      (
        _,
        group_of-decide fl l draws clock stale n size,
        (decide_group_path fl report (some (default_policy fl))).0.1 (inr (inl (ground arith))),
      )
