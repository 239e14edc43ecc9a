-- ===== src/Simulation/Stored.antt =====
-- Where the groups of marketplace_simulation.py end up: the broker, the validators, the budget and the
-- store together.
use streams_rollout_market.Simulation.Leases.{fetch_lease-IsSimLease, IsSimBroker}
use streams_rollout_market.Broker.Outcomes.{submit_group-ok}
use streams_rollout_market.Opbc.Report.{compute_budget_report, default_policy}
use streams_rollout_market.Opbc.Decide.{decide_group}
use streams_rollout_market.Prelude.{
  ◌+◌, ◌<◌, ◌∙◌, ap, sym, lookup, lookup-insert, raise, Result-cases, ◌>>=◌, arith, Result,
  Option-cases, some, none, ok, ◌≡◌, Time, String, Texts, Floats, inl, inr,
}
use streams_rollout_market.Contracts.{
  BudgetReport, RolloutLease, PolicyManifest, WorkerManifest, SampleGroup, GroupDecision,
}
use streams_rollout_market.LiveStore
use streams_rollout_market.LiveStore.{StoredGroup}
use streams_rollout_market.Broker.State.{Broker}
use streams_rollout_market.WorkerSdk.{fetch_lease, submit_group}
use streams_rollout_market.Validators.{validate_group_against_lease}
use streams_rollout_market.Opbc.Severity.{decide_group-rejection_reason}
use streams_rollout_market.Simulation.Profiles.{Padding, policy_manifest, WorkerProfile, make_group}
use streams_rollout_market.Simulation.Rounds.{
  worker_round, train_logprobs_for, decide_for_clean_group, decision_for, work, Readings,
}
use streams_rollout_market.Simulation.Submitting.{IsOpen, worker_round-submits}
use streams_rollout_market.Simulation.Samples.{verdict, IsSigned, IsSimLease, reason_of}
use streams_rollout_market.Simulation.Verdicts.{validate-verdict}

decide_for_clean_group-rejection_reason :
    (fl : Floats) (g : SampleGroup) (d : GroupDecision)
    → decide_for_clean_group fl g ≡ ok d
    → d.rejection_reason ≡ none
unfolding decide_for_clean_group
decide_for_clean_group-rejection_reason fl g d h =
    go (compute_budget_report fl g (train_logprobs_for fl g) none none) h
  where
    go :
        (o : Result BudgetReport)
        → (o >>= λ report. ok (decide_group fl report (some (default_policy fl)))) ≡ ok d
        → d.rejection_reason ≡ none
    go (raise e) h = absurd (cc)
    go (ok report) h =
        ground (arith, decide_group-rejection_reason fl report (some (default_policy fl)))

-- The decision carries the validators' reason, whichever way it was taken.
decision_for-rejection_reason :
    (py : Texts) (fl : Floats) (g : SampleGroup) (l : RolloutLease) (pm : PolicyManifest)
    (clock : Time) (d : GroupDecision)
    → decision_for py fl g l pm clock ≡ ok d
    → d.rejection_reason ≡ reason_of (validate_group_against_lease py fl g l pm (some clock) clock)
unfolding decision_for
decision_for-rejection_reason py fl g l pm clock d h =
    elim (Option-cases (validate_group_against_lease py fl g l pm (some clock) clock)) [
      | inl n ↦ ground (arith, n, decide_for_clean_group-rejection_reason fl g d)
      | inr (d', n) ↦ ground (arith, n)
    ]

-- What a pass that submitted a group did on the way.
work-ok :
    (py : Texts) (fl : Floats) (m : WorkerManifest) (p : WorkerProfile) (pm : PolicyManifest)
    (l : RolloutLease) (r : Readings) (b : Broker) (e : String × WorkerProfile × GroupDecision)
    → (work py fl m p pm l r b).0 ≡ ok (some e)
    → (g : SampleGroup) × (s : StoredGroup) × (make_group fl l p r.draws r.made_at ≡ ok g)
      × (decision_for py fl g l pm r.validated_at ≡ ok e.2)
      × ((submit_group m l g e.2 r.submitted_at b).0 ≡ ok s)
      × ((work py fl m p pm l r b).1 ≡ (submit_group m l g e.2 r.submitted_at b).1)
unfolding work
work-ok py fl m p pm l r b e h = elim (Result-cases (make_group fl l p r.draws r.made_at)) [
  | inr (x, n) ↦ absurd (ground (arith, n))
  | inl (g, made) ↦ elim (Result-cases (decision_for py fl g l pm r.validated_at)) [
    | inr (x, n) ↦ absurd (ground (arith, n))
    | inl (d, decided) ↦ elim (Result-cases (submit_group m l g d r.submitted_at b).0) [
      | inr (x, n) ↦ absurd (ground (arith, n))
      | inl (s, n) ↦ (g, s, made, ground arith, ground arith, ground arith)
    ]
  ]
]

submit-lookup :
    (g : SampleGroup) (d : GroupDecision) (clock : Time) (store : LiveStore.LiveStore)
    (s : StoredGroup)
    → (LiveStore.submit g d clock store).0 ≡ ok s
    → (lookup g.group_id (LiveStore.submit g d clock store).1.records ≡ some s)
      × (s.group ≡ g)
      × (s.state ≡ d.status)
      × (s.rejection_reason ≡ d.rejection_reason)
unfolding LiveStore.submit
submit-lookup g d clock store s h = (
  ground
      (arith, lookup-insert g.group_id g.group_id (LiveStore.new_record g d clock) store.records),
  ground arith,
  ground arith,
  ground arith,
)

submit_group-lookup :
    (m : WorkerManifest) (l : RolloutLease) (g : SampleGroup) (d : GroupDecision) (clock : Time)
    (b : Broker) (s : StoredGroup)
    → (submit_group m l g d clock b).0 ≡ ok s
    → (lookup g.group_id (submit_group m l g d clock b).1.store.records ≡ some s)
      × (s.group ≡ g)
      × (s.state ≡ d.status)
      × (s.rejection_reason ≡ d.rejection_reason)
unfolding submit_group
submit_group-lookup m l g d clock b s h =
    let (r, found, same, open_, known, stored, after) =
      submit_group-ok m.worker_id l.lease_id g d clock b s h in
    let (at_id, same_group, state, reason) = submit-lookup g d clock b.store s stored in
    (ground (arith, after, at_id), same_group, state, reason)

-- The group of a lease of the simulation is stored under its profile's verdict.
work-stored :
    (py : Texts) (fl : Floats) (m : WorkerManifest) (p : WorkerProfile) (announced : Time)
    (l : RolloutLease) (r : Readings) (b : Broker) (e : String × WorkerProfile × GroupDecision)
    → IsSimLease l r.validated_at
    → IsSigned fl r.draws
    → (work py fl m p (policy_manifest announced) l r b).0 ≡ ok (some e)
    → (s : StoredGroup) × (lookup s.group.group_id
          (work py fl m p (policy_manifest announced) l r b).1.store.records
        ≡ some s)
      × (make_group fl l p r.draws r.made_at ≡ ok s.group)
      × (s.rejection_reason ≡ verdict p)
      × (s.state ≡ e.2.status)
work-stored py fl m p announced l r b e sim signed h =
    let (g, s, made, decided, submitted, after) =
      work-ok py fl m p (policy_manifest announced) l r b e h in
    let (g', made', reason) =
      validate-verdict py fl l p r.draws r.made_at announced r.validated_at sim signed in
    let (found, same, state, carried) =
      submit_group-lookup m l g e.2 r.submitted_at b s submitted in
    let equal : g' ≡ g = ground (arith, made, made') in
    let because =
      decision_for-rejection_reason py fl g l (policy_manifest announced) r.validated_at e.2
        decided in
    (
      s,
      ground (arith, found, same, after),
      ground (arith, made, same),
      carried
          ∙ because
          ∙ ap
              (λ x. reason_of (
                validate_group_against_lease py fl x l (policy_manifest announced)
                  (some r.validated_at) r.validated_at))
              (sym equal)
          ∙ reason,
      state,
    )

round-work :
    (py : Texts) (fl : Floats) (m : WorkerManifest) (p : WorkerProfile) (pm : PolicyManifest)
    (r : Readings) (b : Broker) (e : String × WorkerProfile × GroupDecision)
    → (worker_round py fl m p pm r b).0 ≡ ok (some e)
    → (l : RolloutLease) × ((fetch_lease py r.uuid_lease r.uuid_assign m r.fetched_at b).0
        ≡ ok (some l))
      × (worker_round py fl m p pm r b
          ≡ work py fl m p pm l r (fetch_lease py r.uuid_lease r.uuid_assign m r.fetched_at b).1)
unfolding worker_round
round-work py fl m p pm r b e h =
    elim (Result-cases (fetch_lease py r.uuid_lease r.uuid_assign m r.fetched_at b).0) [
      | inr (x, n) ↦ absurd (ground (arith, n))
      | inl (o, n) ↦ elim (Option-cases o) [
        | inl none_left ↦ absurd (ground (arith, n, none_left))
        | inr (l, one) ↦ (l, ground (arith, n, one), ground (arith, n, one))
      ]
    ]

-- A round of a worker with the broker, the validators, the budget and the store: whenever the worker
-- fetches a lease, the round submits a group, which the store then holds, made by the worker's profile, in
-- the state of the decision, and rejected exactly for the reason of the profile: honest, noisy and
-- stale groups never, each toxic profile for its own reason. The broker holds only jobs of the
-- simulation, the group is new and its idempotency key not bound, it is validated before its lease
-- can expire, and 0.0 counts as zero where -0.4, with or without noise, does not.
pub worker_round-stored :
    (py : Texts) (fl : Floats) (pad : Padding) (m : WorkerManifest) (p : WorkerProfile)
    (announced : Time) (r : Readings) (b : Broker) (l : RolloutLease)
    → IsSimBroker fl pad b
    → IsSigned fl r.draws
    → r.validated_at < r.fetched_at + b.lease_ttl
    → (let fetched = fetch_lease py r.uuid_lease r.uuid_assign m r.fetched_at b in
        let answer = worker_round py fl m p (policy_manifest announced) r b in
        fetched.0 ≡ ok (some l)
        → IsOpen l fetched.1
        → (d : GroupDecision) × (s : StoredGroup) × (answer.0 ≡ ok (some (m.worker_id, p, d)))
          × (lookup s.group.group_id answer.1.store.records ≡ some s)
          × (make_group fl l p r.draws r.made_at ≡ ok s.group)
          × (s.rejection_reason ≡ verdict p)
          × (s.state ≡ d.status))
worker_round-stored py fl pad m p announced r b l sim signed lt fetched open_ =
    let lease =
      fetch_lease-IsSimLease py fl pad r.uuid_lease r.uuid_assign m r.fetched_at r.validated_at b l
        sim fetched lt in
    let (d, done) =
      worker_round-submits py fl m p (policy_manifest announced) r b l fetched lease open_ in
    let (l', fetched', same) = round-work py fl m p (policy_manifest announced) r b _ done in
    let one : l' ≡ l = ground (arith, fetched, fetched') in
    let same' =
      same
      ∙ ap
          (λ x.
            work py fl m p (policy_manifest announced) x r
              (fetch_lease py r.uuid_lease r.uuid_assign m r.fetched_at b).1)
          one in
    let (s, found, made, reason, state) =
      work-stored py fl m p announced l r
        (fetch_lease py r.uuid_lease r.uuid_assign m r.fetched_at b).1 (m.worker_id, p, d) lease
        signed (sym (ap (λ x. x.0) same') ∙ done) in
    (
      d,
      s,
      done,
      ap (λ x. lookup s.group.group_id x.1.store.records) same' ∙ found,
      made,
      reason,
      state,
    )
