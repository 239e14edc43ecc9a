-- ===== src/Simulation/Scoring.antt =====
-- Every group that marketplace_simulation.py makes can be scored by the trainer's side.
use streams_rollout_market.Prelude.{
  ◌∙◌, sym, pos_part, some, none, arith, ◌≢◌, ok, pos, ap, List, ◌≡◌, Time, Float, length, Floats,
  [], ◌∷◌, ℕ, suc, refl,
}
use streams_rollout_market.Contracts.{RolloutLease, Trajectory}
use streams_rollout_market.Opbc.Report.{
  flatten_rollout_logprobs, policy_logprobs, report_of, default_policy,
}
use streams_rollout_market.Opbc.Decide.{decide_group}
use streams_rollout_market.Simulation.Profiles.{
  WorkerProfile, honest, noisy, stale, toxic_tokenizer, toxic_precision, toxic_no_logprobs,
  toxic_version_drift, Draws, group_of, rollout_logprobs, repeat_times,
}
use streams_rollout_market.Simulation.Rounds.{decide_for_clean_group, train_logprobs_for}
use streams_rollout_market.Simulation.Drift.{decide_for_clean_group-ok}
use streams_rollout_market.Simulation.Samples.{All-repeat_times, sample}

-- Every profile ships three log-probabilities.
rollout_logprobs_three :
    (fl : Floats) (p : WorkerProfile) (draws : Draws)
    → (a : Float) × (b : Float) × (c : Float) × (rollout_logprobs fl p draws ≡ a ∷ b ∷ c ∷ [])
unfolding rollout_logprobs
rollout_logprobs_three fl honest draws = (_, _, _, refl)
rollout_logprobs_three fl noisy draws = (_, _, _, refl)
rollout_logprobs_three fl stale draws = (_, _, _, refl)
rollout_logprobs_three fl toxic_tokenizer draws = (_, _, _, refl)
rollout_logprobs_three fl toxic_precision draws = (_, _, _, refl)
rollout_logprobs_three fl toxic_no_logprobs draws = (_, _, _, refl)
rollout_logprobs_three fl toxic_version_drift draws = (_, _, _, refl)

abbrev IsSized : Trajectory → Type 0
IsSized t = length t.rollout_logprobs ≡ length t.action_mask

module _ (fl : Floats) (l : RolloutLease) (draws : Draws) (clock : Time) (p : WorkerProfile) where
  sample-IsSized : IsSized (sample fl l draws clock p)
  sample-IsSized = let (a, b, c, e) = rollout_logprobs_three fl p draws in ap length e

  flatten-sample :
      (ts : List Trajectory) → flatten_rollout_logprobs (sample fl l draws clock p ∷ ts) ≢ []
  unfolding flatten_rollout_logprobs policy_logprobs
  flatten-sample ts e =
      let (a, b, c, three) = rollout_logprobs_three fl p draws in ground (arith, three)

  -- The decision is that of the budget on the group's report.
  pub group_of-decide :
      (n : ℕ)
      → l.group_size ≡ pos (suc n)
      → (let g = group_of fl l p (sample fl l draws clock p) clock in
          decide_for_clean_group fl g
          ≡ ok (
              decide_group fl
                (report_of fl g
                  (train_logprobs_for fl g)
                  (flatten_rollout_logprobs g.trajectories)
                  (default_policy fl)
                  none)
                (some (default_policy fl))))
  unfolding group_of
  group_of-decide n size =
      let t = sample fl l draws clock p in
      let g = group_of fl l p t clock in
      let many : repeat_times (pos_part l.group_size) t ≡ t ∷ repeat_times n t =
        ap (λ z. repeat_times (pos_part z) t) size in
      decide_for_clean_group-ok fl g
        (All-repeat_times IsSized (pos_part l.group_size) t sample-IsSized)
        (λ e. flatten-sample (repeat_times n t) (ap flatten_rollout_logprobs (sym many) ∙ e))
