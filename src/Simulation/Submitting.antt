-- ===== src/Simulation/Submitting.antt =====
-- A round of marketplace_simulation.py that gets a lease submits its group.
use streams_rollout_market.Prelude.{
  ◌<>◌, none, lookup, arith, Option-cases, suc, some, false, pos, ok, contains, ◌≡◌, String, Floats,
  Time, Texts, ℕ, inl, inr,
}
use streams_rollout_market.Contracts.{
  RolloutLease, PolicyManifest, WorkerManifest, SampleGroup, GroupDecision,
}
use streams_rollout_market.LiveStore
use streams_rollout_market.LiveStore.{StoredGroup}
use streams_rollout_market.Broker.State.{Broker, is_issued}
use streams_rollout_market.Broker.Closing.{bound_elsewhere, store_group}
use streams_rollout_market.Broker.Closing
use streams_rollout_market.WorkerSdk.{fetch_lease, submit_group}
use streams_rollout_market.WorkerSdk.Rounds.{acquire_lease-ok}
use streams_rollout_market.Validators.{validate_group_against_lease}
use streams_rollout_market.Validators.Reasons.{validate-IsRejection}
use streams_rollout_market.Opbc.Report.{
  default_policy, flatten_rollout_logprobs, default_policy, report_of,
}
use streams_rollout_market.Opbc.Decide.{decide_group}
use streams_rollout_market.Opbc.Severity.{decide_group-built}
use streams_rollout_market.Simulation.Profiles.{WorkerProfile, group_of}
use streams_rollout_market.Simulation.Rounds.{
  train_logprobs_for, decision_for, work, worker_round, Readings,
}
use streams_rollout_market.Simulation.Samples.{IsSimLease, sample, make_group-ok}
use streams_rollout_market.Simulation.Scoring.{group_of-decide}

-- There is a decision for every group, and it names the group.
decision_for-ok :
    (py : Texts) (fl : Floats) (l : RolloutLease) (p : WorkerProfile) (r : Readings)
    (pm : PolicyManifest) (n : ℕ)
    → l.group_size ≡ pos (suc n)
    → (let g = group_of fl l p (sample fl l r.draws r.made_at p) r.made_at in
        (d : GroupDecision) × (decision_for py fl g l pm r.validated_at ≡ ok d)
        × (d.group_id ≡ g.group_id))
unfolding decision_for report_of
decision_for-ok py fl l p r pm n size =
    let g = group_of fl l p (sample fl l r.draws r.made_at p) r.made_at in
    elim (Option-cases
      (validate_group_against_lease py fl g l pm (some r.validated_at) r.validated_at)) [
        | inl clean ↦
            let report =
              report_of fl g (train_logprobs_for fl g) (flatten_rollout_logprobs g.trajectories)
                (default_policy fl) none in
            (
              decide_group fl report (some (default_policy fl)),
              ground (arith, clean, group_of-decide fl l r.draws r.made_at p n size),
              (decide_group-built fl report (some (default_policy fl))).1,
            )
        | inr (d, e) ↦ (
          d,
          ground (arith, e),
          (validate-IsRejection py fl g l pm (some r.validated_at) r.validated_at d e).group_id,
        )
      ]

submit-ok :
    (g : SampleGroup) (d : GroupDecision) (clock : Time) (store : LiveStore.LiveStore)
    → d.group_id ≡ g.group_id
    → contains g.group_id store.records ≡ false
    → (s : StoredGroup) × ((LiveStore.submit g d clock store).0 ≡ ok s)
unfolding LiveStore.submit
submit-ok g d clock store same fresh = (LiveStore.new_record g d clock, ground (arith, same, fresh))

-- A lease that was just fetched takes a new group.
fetch_lease-submit_group :
    (py : Texts) (u v : String) (m : WorkerManifest) (fetched later : Time) (b : Broker)
    (l : RolloutLease) (g : SampleGroup) (d : GroupDecision)
    → (let b' = (fetch_lease py u v m fetched b).1 in
        (fetch_lease py u v m fetched b).0 ≡ ok (some l)
        → d.group_id ≡ g.group_id
        → contains g.group_id b'.store.records ≡ false
        → lookup l.idempotency_key b'.idempotency_keys ≡ none
        → (s : StoredGroup) × ((submit_group m l g d later b').0 ≡ ok s))
unfolding fetch_lease submit_group Closing.submit_group store_group is_issued bound_elsewhere
fetch_lease-submit_group py u v m fetched later b l g d h same fresh unbound =
    let given = acquire_lease-ok py u v m.worker_id none fetched b l h in
    let (s, stored) = submit-ok g d later (fetch_lease py u v m fetched b).1.store same fresh in
    (s, ground (arith, given.1, given.2, given.3, unbound, stored))

-- What a round needs of the broker and the store that its lease leaves: the group is not stored yet, and
-- the job's idempotency key is not bound.
pub record IsOpen (l : RolloutLease) (b : Broker) : Type 0 where
  pub new_group : contains ("g-" <> l.lease_id) b.store.records ≡ false
  pub unbound : lookup l.idempotency_key b.idempotency_keys ≡ none

-- A round that gets a lease of the simulation submits its group.
pub worker_round-submits :
    (py : Texts) (fl : Floats) (m : WorkerManifest) (p : WorkerProfile) (pm : PolicyManifest)
    (r : Readings) (b : Broker) (l : RolloutLease)
    → (let fetched = fetch_lease py r.uuid_lease r.uuid_assign m r.fetched_at b in
        fetched.0 ≡ ok (some l)
        → IsSimLease l r.validated_at
        → IsOpen l fetched.1
        → (d : GroupDecision) × ((worker_round py fl m p pm r b).0 ≡ ok (some (m.worker_id, p, d))))
unfolding worker_round work group_of
worker_round-submits py fl m p pm r b l h sim open_ =
    let (n, size) = sim.size in
    let g = group_of fl l p (sample fl l r.draws r.made_at p) r.made_at in
    let (d, decided, same) = decision_for-ok py fl l p r pm n size in
    let (s, stored) =
      fetch_lease-submit_group py r.uuid_lease r.uuid_assign m r.fetched_at r.submitted_at b l g d h
        same open_.new_group open_.unbound in
    (d, ground (arith, h, make_group-ok fl l r.draws r.made_at p (n, size), decided, stored))
