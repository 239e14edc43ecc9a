-- ===== src/Broker/Acquire.antt =====
-- Who gets a lease from `acquire_lease` of worker_broker.py, and when.
use streams_rollout_market.Prelude.{
  ◌+◌, ◌<◌, ◌≤◌, ◌≡◌, ◌≢◌, refl, ◌⊎◌, ◌↔◌, inl, inr, pos_part, neg_part, String, true, false,
  Option, none, some, List, [], ◌∷◌, Dict, lookup, AllEntries, member, member-add, Time, Texts,
  get_or, ◌<>◌, Option-cases, ok, arith,
}
use streams_rollout_market.Contracts.{
  RolloutJob, RolloutLease, WorkerManifest, non_empty, new_rollout_job, new_rollout_lease,
}
use streams_rollout_market.Broker.State.{Broker}
use streams_rollout_market.Broker.Leasing.{
  lacks_quantization, engine_refused, capabilities_match, next_job, lease_for, lease_job,
  acquire_lease,
}
use streams_rollout_market.Broker.Cases.{next_job-eligible}

-- What a job asks of a worker.
pub record CanRun (job : RolloutJob) (m : WorkerManifest) : Type 0 where
  pub precision : member job.required_precision_class m.precision_classes ≡ true
  pub context :
      pos_part job.max_context_tokens + neg_part m.max_context_tokens
      ≤ pos_part m.max_context_tokens + neg_part job.max_context_tokens
  pub quantization :
      (q : String)
      → job.required_quantization_class ≡ some q
      → q ≢ ""
      → member q m.quantization_classes ≡ true
  pub engine : (job.allowed_engines ≡ []) ⊎ (member m.engine_name job.allowed_engines ≡ true)

quantization-of :
    (o : Option String) (classes : List String)
    → lacks_quantization o classes ≡ false
    → (q : String) → o ≡ some q
    → q ≢ ""
    → member q classes ≡ true
unfolding lacks_quantization
quantization-of none classes h q e n = cc
quantization-of (some p) classes h q e n = ground arith

not-lacks_quantization :
    (o : Option String) (classes : List String)
    → ((q : String) → o ≡ some q → q ≢ "" → member q classes ≡ true)
    → lacks_quantization o classes ≡ false
unfolding lacks_quantization
not-lacks_quantization none classes f = refl
not-lacks_quantization (some p) classes f = ground (arith, f p refl)

engine_lem :
    (engines : List String) (engine : String)
    → (engine_refused engines engine ≡ false) ↔ ((engines ≡ []) ⊎ (member engine engines ≡ true))
unfolding engine_refused
engine_lem [] engine = (λ _. inl refl, λ _. refl)
engine_lem (e ∷ es) engine = (λ h. inr (ground arith), λ h. ground arith)

-- A worker matches a job exactly if it has the precision class and the context length, the
-- quantization class where the job names one, and an engine that the job allows.
pub capabilities_match_iff :
    (job : RolloutJob) (m : WorkerManifest) → (capabilities_match job m ≡ true) ↔ CanRun job m
unfolding capabilities_match
capabilities_match_iff job m = (
  λ h. record {
    precision = ground arith;
    context = ground arith;
    quantization =
        quantization-of job.required_quantization_class m.quantization_classes (ground arith);
    engine = (engine_lem job.allowed_engines m.engine_name).0 (ground arith);
  },
  λ c. ground (
    arith,
    c.precision,
    not-lacks_quantization job.required_quantization_class m.quantization_classes c.quantization,
    (engine_lem job.allowed_engines m.engine_name).1 c.engine,
  ),
)

-- A queued job that pydantic accepted.
pub record IsQueued (py : Texts) (k : String) (job : RolloutJob) : Type 0 where
  pub key : job.job_id ≡ k
  pub built : new_rollout_job py job ≡ ok job

next_job-IsQueued :
    (py : Texts) (leased : List String) (m : WorkerManifest) (jobs : Dict RolloutJob) (k : String)
    (job : RolloutJob)
    → AllEntries (IsQueued py) jobs
    → next_job leased m jobs ≡ some (k, job)
    → IsQueued py k job
unfolding next_job
next_job-IsQueued py leased m [] k job a h = cc
next_job-IsQueued py leased m (e ∷ jobs) k job a h =
    ground (arith, a.0, next_job-IsQueued py leased m jobs k job a.1)

-- An eligible job in the queue is enough for the search to find one.
next_job-finds :
    (leased : List String) (m : WorkerManifest) (jobs : Dict RolloutJob) (k : String)
    (job : RolloutJob)
    → lookup k jobs ≡ some job
    → member k leased ≡ false
    → capabilities_match job m ≡ true
    → next_job leased m jobs ≢ none
unfolding next_job lookup
next_job-finds leased m [] k job h free can = cc
next_job-finds leased m (e ∷ jobs) k job h free can =
    ground (arith, next_job-finds leased m jobs k job)

-- Pydantic accepts the lease for a job that it accepted, if the ids are not blank and the lease has
-- a time to live.
lease_for-built :
    (py : Texts) (u v worker_id k : String) (now ttl : Time) (job : RolloutJob)
    → non_empty py ("lease-" <> u) ≡ true
    → non_empty py ("assign-" <> v) ≡ true
    → non_empty py worker_id ≡ true
    → 0 < ttl
    → IsQueued py k job
    → new_rollout_lease py (lease_for u v now ttl worker_id k job)
      ≡ ok (lease_for u v now ttl worker_id k job)
unfolding new_rollout_lease new_rollout_job
lease_for-built py u v worker_id k now ttl job hu hv hw t q =
    ground (arith, hu, hv, hw, q.built, q.key)

-- A registered worker that is not marked dead gets a lease whenever the queue holds a job that is
-- not leased and that it can run: provided that the queue holds jobs that pydantic accepted, the ids
-- are not blank and leases have a time to live. The lease is for this worker and for a job that was
-- not leased and now is.
pub acquire_lease-serves :
    (py : Texts) (u v worker_id : String) (now : Option Time) (clock : Time) (b : Broker)
    (m : WorkerManifest) (k : String) (job : RolloutJob)
    → non_empty py ("lease-" <> u) ≡ true
    → non_empty py ("assign-" <> v) ≡ true
    → non_empty py worker_id ≡ true
    → 0 < b.lease_ttl
    → AllEntries (IsQueued py) b.jobs
    → lookup worker_id b.workers ≡ some m
    → member worker_id b.dead_workers ≡ false
    → lookup k b.jobs ≡ some job
    → member k b.leased_job_ids ≡ false
    → CanRun job m
    → (l : RolloutLease) × ((acquire_lease py u v worker_id now clock b).0 ≡ ok (some l))
      × (l.worker_id ≡ worker_id)
      × (member l.job_id b.leased_job_ids ≡ false)
      × (member l.job_id (acquire_lease py u v worker_id now clock b).1.leased_job_ids ≡ true)
unfolding acquire_lease lease_job
acquire_lease-serves py u v worker_id now clock b m k job hu hv hw t queue reg alive here free can =
    elim (Option-cases (next_job b.leased_job_ids m b.jobs)) [
      | inl n ↦ absurd (
          next_job-finds b.leased_job_ids m b.jobs k job here free
            ((capabilities_match_iff job m).1 can) n)
      | inr ((j, found), n) ↦
          let q = next_job-IsQueued py b.leased_job_ids m b.jobs j found queue n in
          let at = get_or now clock in
          let l = lease_for u v at b.lease_ttl worker_id j found in
          let made = lease_for-built py u v worker_id j at b.lease_ttl found hu hv hw t q in
          let elig = next_job-eligible b.leased_job_ids m b.jobs j found n in
          (
            l,
            ground (arith, reg, alive, n, made),
            refl,
            elig.0,
            ground (arith, reg, alive, n, made, member-add j j b.leased_job_ids),
          )
    ]
