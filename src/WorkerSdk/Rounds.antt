-- ===== src/WorkerSdk/Rounds.antt =====
-- A worker's round with the broker through worker.py.
use streams_rollout_market.Prelude.{
  ◌≡◌, ◌≢◌, String, Bool, true, false, Option, none, some, lookup, lookup-insert, member,
  member-discard, contains, Time, Texts, ok, raise, worker_not_registered, validation_error, arith,
  ◌⊎◌, Option-cases, Bool-cases, inl, inr, get_or,
}
use streams_rollout_market.Contracts.{RolloutLease, RolloutJob, WorkerManifest, new_rollout_lease}
use streams_rollout_market.Broker.State.{Broker, is_issued}
use streams_rollout_market.Broker.Workers
use streams_rollout_market.Broker.Leasing.{
  acquire_lease, lease_job, next_job, lease_for, issued_record,
}
use streams_rollout_market.Broker.Closing
use streams_rollout_market.WorkerSdk.{beat_of, register, heartbeat, fetch_lease, report_failure}

new_rollout_lease_cases :
    (py : Texts) (l : RolloutLease)
    → (new_rollout_lease py l ≡ ok l) ⊎ (new_rollout_lease py l ≡ raise validation_error)
unfolding new_rollout_lease
new_rollout_lease_cases py l = ground arith

lease_job_raise :
    (py : Texts) (u v : String) (now : Time) (worker_id : String)
    (found : Option (String × RolloutJob)) (b : Broker)
    → (lease_job py u v now worker_id found b).0 ≢ raise worker_not_registered
unfolding lease_job
lease_job_raise py u v now worker_id none b h = ground arith
lease_job_raise py u v now worker_id (some (k, job)) b h =
    ground (arith, new_rollout_lease_cases py (lease_for u v now b.lease_ttl worker_id k job))

-- What a lease that was given leaves in the broker: its worker's issued record.
lease_job-ok :
    (py : Texts) (u v : String) (now : Time) (worker_id : String)
    (found : Option (String × RolloutJob)) (b : Broker) (l : RolloutLease)
    → (lease_job py u v now worker_id found b).0 ≡ ok (some l)
    → (job : RolloutJob) × (lookup l.lease_id (lease_job py u v now worker_id found b).1.leases
        ≡ some (issued_record l job now))
      × (l.worker_id ≡ worker_id)
      × ((lease_job py u v now worker_id found b).1.workers ≡ b.workers)
unfolding lease_job
lease_job-ok py u v now worker_id none b l h = absurd (ground arith)
lease_job-ok py u v now worker_id (some (k, job)) b l h =
    let made = lease_for u v now b.lease_ttl worker_id k job in
    (
      job,
      ground (
        arith,
        new_rollout_lease_cases py made,
        lookup-insert made.lease_id made.lease_id (issued_record made job now) b.leases,
      ),
      ground (arith, new_rollout_lease_cases py made),
      ground (arith, new_rollout_lease_cases py made),
    )

pub acquire_lease-ok :
    (py : Texts) (u v worker_id : String) (now : Option Time) (clock : Time) (b : Broker)
    (l : RolloutLease)
    → (acquire_lease py u v worker_id now clock b).0 ≡ ok (some l)
    → (let b' = (acquire_lease py u v worker_id now clock b).1 in
        (job : RolloutJob) × (lookup l.lease_id b'.leases
          ≡ some (issued_record l job (get_or now clock)))
        × (l.worker_id ≡ worker_id)
        × (contains worker_id b'.workers ≡ true))
unfolding acquire_lease
acquire_lease-ok py u v worker_id now clock b l h =
    elim (Option-cases (lookup worker_id b.workers)) [
      | inl e ↦ absurd (ground arith)
      | inr (m, e) ↦ elim (Bool-cases (member worker_id b.dead_workers)) [
        | inl dead ↦ absurd (ground arith)
        | inr alive ↦
            let found = next_job b.leased_job_ids m b.jobs in
            let given = lease_job-ok py u v (get_or now clock) worker_id found b l (ground arith) in
            (given.0, ground (arith, given.1), given.2, ground (arith, given.3))
      ]
    ]

-- A worker that has registered is not dead, whatever the broker held before; its heartbeats are
-- taken, and its request for a lease is not refused for want of a registration.
pub register_lem :
    (py : Texts) (m : WorkerManifest) (clock : Time) (b : Broker)
    → (let b' = register m clock b in
        (Workers.is_dead m.worker_id b' ≡ false)
        × ((healthy : Bool) (version : Option String) (later : Time)
            → (heartbeat m healthy version later b').0 ≡ ok (beat_of m healthy version later))
        × ((u v : String) (later : Time)
            → (fetch_lease py u v m later b').0 ≢ raise worker_not_registered))
unfolding register heartbeat fetch_lease Workers.register_worker Workers.heartbeat Workers.is_dead
    acquire_lease
register_lem py m clock b = (
  ground (arith, member-discard m.worker_id m.worker_id b.dead_workers),
  λ healthy version later. ground (
    arith,
    lookup-insert m.worker_id m.worker_id m b.workers,
    member-discard m.worker_id m.worker_id b.dead_workers,
  ),
  λ u v later h. ground (
    arith,
    lookup-insert m.worker_id m.worker_id m b.workers,
    member-discard m.worker_id m.worker_id b.dead_workers,
    lease_job_raise py u v later m.worker_id
        (next_job (register m clock b).leased_job_ids m (register m clock b).jobs)
        (register m clock b),
  ),
)

-- A lease that the worker was given can be handed back: a failure report for it is taken.
pub fetch_lease-report_failure :
    (py : Texts) (u v : String) (m : WorkerManifest) (clock : Time) (b : Broker) (l : RolloutLease)
    → (fetch_lease py u v m clock b).0 ≡ ok (some l)
    → (reason : String) (detail : Option String) (later : Time)
    → (report_failure m l reason detail later (fetch_lease py u v m clock b).1).0 ≡ ok tt
unfolding fetch_lease report_failure Closing.report_failure is_issued
fetch_lease-report_failure py u v m clock b l h reason detail later =
    let given = acquire_lease-ok py u v m.worker_id none clock b l h in
    ground (arith, given.1, given.2, given.3)
