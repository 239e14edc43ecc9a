-- ===== src/Simulation/Rounds.antt =====
-- The trainer's side and the workers' rounds of marketplace_simulation.py. The rounds of one worker
-- are modelled; the broker's calls of several workers interleave as the steps of Broker/Steps do.
use Prim.Native.Nat.{◌%◌}
use streams_rollout_market.Prelude.{
  none, if◌then◌else◌, ◌>>=◌, ◌+◌, ◌++◌, raise, [], ok, get_elem?, ◌∷◌, ℤ, some, get_or, Option,
  Time, Result, List, Float, Texts, String, Floats, ℕ,
}
use streams_rollout_market.Contracts.{
  WorkerManifest, PolicyManifest, RolloutLease, SampleGroup, Trajectory, GroupDecision,
}
use streams_rollout_market.Opbc.Report.{is_policy_token, compute_budget_report, default_policy}
use streams_rollout_market.Opbc.Decide.{decide_group}
use streams_rollout_market.Validators.{validate_group_against_lease}
use streams_rollout_market.Broker.State.{Broker}
use streams_rollout_market.WorkerSdk
use streams_rollout_market.Simulation.Profiles.{WorkerProfile, Draws, make_group}

module _ (fl : Floats) where
  -- `baseline[idx % len(baseline)]`
  unfoldable pub baseline_at : ℕ → Float
  baseline_at idx =
      get_or (get_elem? (fl.literal 395 3 ∷ fl.literal 305 3 ∷ fl.literal 495 3 ∷ []) (idx % 3))
        (fl.literal 0 0)

  -- The loop over the tokens of one trajectory, from `idx`.
  unfoldable pub train_loop : ℕ → List ℤ → List ℤ → List Float
  unfolding baseline_at
  train_loop idx (action ∷ actions) (tool ∷ tools) =
      let next = train_loop (idx + 1) actions tools in
      let skip = train_loop idx actions tools in
      if is_policy_token action tool then fl.negate (baseline_at idx) ∷ next else skip
  train_loop idx _ _ = []

  -- The loop over the trajectories.
  unfoldable pub train_all : List Trajectory → List Float
  unfolding train_loop
  train_all [] = []
  train_all (t ∷ ts) = train_loop 0 t.action_mask t.tool_output_mask ++ train_all ts

  unfoldable pub train_logprobs_for : SampleGroup → List Float
  train_logprobs_for group = train_all group.trajectories

  unfoldable pub decide_for_clean_group : SampleGroup → Result GroupDecision
  decide_for_clean_group group = do
    report ← compute_budget_report fl group (train_logprobs_for group) none none
    ok (decide_group fl report (some (default_policy fl)))

-- What one round reads from outside: the two `uuid4()` values, the draws, and the clock at each call.
pub record Readings : Type 0 where
  pub uuid_lease : String
  pub uuid_assign : String
  pub draws : Draws
  pub fetched_at : Time
  pub made_at : Time
  pub validated_at : Time
  pub submitted_at : Time

module _ (py : Texts) (fl : Floats) where
  -- What the worker decides about its group.
  unfoldable pub decision_for :
      SampleGroup → RolloutLease → PolicyManifest → Time → Result GroupDecision
  unfolding decide_for_clean_group
  decision_for group lease pm clock =
      elim (validate_group_against_lease py fl group lease pm (some clock) clock) [
        | some rejected ↦ ok rejected
        | none ↦ decide_for_clean_group fl group
      ]

  -- The body of the loop after the lease is there: what `out` is given, or the exception.
  unfoldable pub work :
      WorkerManifest
      → WorkerProfile
      → PolicyManifest
      → RolloutLease
      → Readings
      → Broker
      → Result (Option (String × WorkerProfile × GroupDecision)) × Broker
  unfolding decision_for
  work m profile pm lease r b = elim (made) [
    | raise e ↦ (raise e, b)
    | ok (group, decision) ↦
        let answer = WorkerSdk.submit_group m lease group decision r.submitted_at b in
        elim (answer.0) [
          | raise e ↦ (raise e, answer.1)
          | ok stored ↦ (ok (some (m.worker_id, profile, decision)), answer.1)
        ]
  ]
    where
      made : Result (SampleGroup × GroupDecision)
      made = do
        group ← make_group fl lease profile r.draws r.made_at
        decision ← decision_for group lease pm r.validated_at
        ok (group, decision)

  -- One pass of the worker's loop (`ok none` is its return).
  unfoldable pub worker_round :
      WorkerManifest
      → WorkerProfile
      → PolicyManifest
      → Readings
      → Broker
      → Result (Option (String × WorkerProfile × GroupDecision)) × Broker
  unfolding work
  worker_round m profile pm r b =
      let fetched = WorkerSdk.fetch_lease py r.uuid_lease r.uuid_assign m r.fetched_at b in
      elim (fetched.0) [
        | raise e ↦ (raise e, fetched.1)
        | ok none ↦ (ok none, fetched.1)
        | ok (some lease) ↦ work m profile pm lease r fetched.1
      ]
