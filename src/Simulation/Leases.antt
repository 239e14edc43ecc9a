-- ===== src/Simulation/Leases.antt =====
-- A lease that the broker gives out while it holds the jobs of marketplace_simulation.py.
use streams_rollout_market.Prelude.{
  [], ◌∷◌, ◌+◌, ◌<◌, lookup, inl, inr, Option-cases, Bool-cases, subst, inl, refl, member, none,
  Bool-cases, ◌∷◌, arith, some, ok, ◌≡◌, Option, Dict, Time, List, All, Texts, String, Floats, ℕ,
}
use streams_rollout_market.Contracts.{RolloutLease, RolloutJob, WorkerManifest, new_rollout_lease}
use streams_rollout_market.Broker.State.{Broker}
use streams_rollout_market.Broker.Leasing.{
  capabilities_match, acquire_lease, lease_job, next_job, lease_for,
}
use streams_rollout_market.WorkerSdk.{fetch_lease}
use streams_rollout_market.Simulation.Profiles.{Padding, job}
use streams_rollout_market.Simulation.Samples.{IsSimLease}

next_job-All {ℓ} :
    (P : String × RolloutJob → Type ℓ) (leased : List String) (m : WorkerManifest)
    (jobs : Dict RolloutJob) (e : String × RolloutJob)
    → next_job leased m jobs ≡ some e
    → All P jobs
    → P e
unfolding next_job
next_job-All P leased m [] e h a = absurd (cc)
next_job-All P leased m (x ∷ jobs) e h a = elim (Bool-cases (member x.0 leased)) [
  | inl taken ↦ next_job-All P leased m jobs e (ground arith) a.1
  | inr free ↦ elim (Bool-cases (capabilities_match x.1 m)) [
    | inl fits ↦ subst P (ground arith) a.0
    | inr other ↦ next_job-All P leased m jobs e (ground arith) a.1
  ]
]

-- The lease is made from a job that the worker can take.
lease_job-lease_for :
    (py : Texts) (u v : String) (now : Time) (worker_id : String)
    (found : Option (String × RolloutJob)) (b : Broker) (l : RolloutLease)
    → (lease_job py u v now worker_id found b).0 ≡ ok (some l)
    → (e : String × RolloutJob) × (found ≡ some e)
      × (l ≡ lease_for u v now b.lease_ttl worker_id e.0 e.1)
      × (new_rollout_lease py l ≡ ok l)
unfolding lease_job new_rollout_lease
lease_job-lease_for py u v now worker_id none b l h = absurd (ground arith)
lease_job-lease_for py u v now worker_id (some (k, j)) b l h =
    ((k, j), refl, ground arith, ground arith)

fetch_lease-lease_for :
    (py : Texts) (u v : String) (m : WorkerManifest) (clock : Time) (b : Broker) (l : RolloutLease)
    → (fetch_lease py u v m clock b).0 ≡ ok (some l)
    → (e : String × RolloutJob) × (m' : WorkerManifest) × (lookup m.worker_id b.workers ≡ some m')
      × (next_job b.leased_job_ids m' b.jobs ≡ some e)
      × (l ≡ lease_for u v clock b.lease_ttl m.worker_id e.0 e.1)
unfolding fetch_lease acquire_lease
fetch_lease-lease_for py u v m clock b l h = elim (Option-cases (lookup m.worker_id b.workers)) [
  | inl e ↦ absurd (ground arith)
  | inr (m', e) ↦ elim (Bool-cases (member m.worker_id b.dead_workers)) [
    | inl dead ↦ absurd (ground arith)
    | inr alive ↦
        let (k, found, made, built) =
          lease_job-lease_for py u v clock m.worker_id (next_job b.leased_job_ids m' b.jobs) b l
            (ground arith) in
        (k, m', e, found, made)
  ]
]

-- Every job of the broker is one of the simulation's.
abbrev pub IsSimBroker : Floats → Padding → Broker → Type 0
IsSimBroker fl pad b =
    All (λ e. (idx : ℕ) × (created : Time) × (e.1 ≡ job fl pad idx created)) b.jobs

-- A worker that fetches a lease from such a broker gets one for a job of the simulation; it is not over
-- before the broker's time limit for leases has passed.
pub fetch_lease-IsSimLease :
    (py : Texts) (fl : Floats) (pad : Padding) (u v : String) (m : WorkerManifest)
    (clock now : Time) (b : Broker) (l : RolloutLease)
    → IsSimBroker fl pad b
    → (fetch_lease py u v m clock b).0 ≡ ok (some l)
    → now < clock + b.lease_ttl
    → IsSimLease l now
unfolding job
fetch_lease-IsSimLease py fl pad u v m clock now b l sim h lt =
    let ((k, j), m', e, found, made) = fetch_lease-lease_for py u v m clock b l h in
    let (idx, created, same) =
      next_job-All (λ x. (idx : ℕ) × (created : Time) × (x.1 ≡ job fl pad idx created))
        b.leased_job_ids m' b.jobs (k, j) found sim in
    record {
      in_time = ground (arith, made, lt);
      version = ground (arith, made, same);
      precision = ground (arith, made, same);
      quantization = ground (arith, made, same);
      size = (1, ground (arith, made, same));
      context = (4096, omega arith, ground (arith, made, same));
    }
