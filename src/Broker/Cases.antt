-- ===== src/Broker/Cases.antt =====
-- The methods of worker_broker.py by cases: what holds before a call, and after each way in which
-- the call can change the broker, holds after the call.
use streams_rollout_market.Prelude.{
  Result-cases, ◌-◌, ◌≡◌, refl, inl, inr, String, true, false, Option, none, some, List, [], ◌∷◌,
  Dict, lookup, member, Time, Texts, Option-cases, get_or, ok, raise, Error, arith,
}
use streams_rollout_market.Contracts.{
  RolloutJob, RolloutLease, SampleGroup, GroupDecision, WorkerManifest, WorkerHeartbeat,
  new_rollout_lease,
}
use streams_rollout_market.LiveStore
use streams_rollout_market.LiveStore.{LiveStore, StoredGroup}
use streams_rollout_market.Broker.State.{Broker, LeaseRecord, is_issued}
use streams_rollout_market.Broker.Leasing.{
  capabilities_match, next_job, lease_for, issue, lease_job, acquire_lease,
}
use streams_rollout_market.Broker.Closing.{
  bound_elsewhere, after_submit, after_failure, store_group, submit_group, report_failure,
}
use streams_rollout_market.Broker.Reaping.{
  abandon_worker, abandon_check, abandon_loop, abandon_stale_workers,
}

-- The job that is leased was not leased, and the worker can run it.
pub next_job-eligible :
    (leased : List String) (m : WorkerManifest) (jobs : Dict RolloutJob) (k : String)
    (job : RolloutJob)
    → next_job leased m jobs ≡ some (k, job)
    → (member k leased ≡ false) × (capabilities_match job m ≡ true)
unfolding next_job
next_job-eligible leased m [] k job h = cc
next_job-eligible leased m (e ∷ jobs) k job h =
    ground (arith, next_job-eligible leased m jobs k job)

new_rollout_lease-ok :
    (py : Texts) (l made : RolloutLease) → new_rollout_lease py l ≡ ok made → made ≡ l
unfolding new_rollout_lease
new_rollout_lease-ok py l made h = ground arith

-- A call of the store's `submit` that raises leaves the store as it was.
pub submit-raise :
    (g : SampleGroup) (d : GroupDecision) (clock : Time) (s : LiveStore) (e : Error)
    → (LiveStore.submit g d clock s).0 ≡ raise e
    → (LiveStore.submit g d clock s).1 ≡ s
unfolding LiveStore.submit
submit-raise g d clock s e h = ground arith

module _ {ℓ} (P : Broker → Type ℓ) where
  lease_job_cases :
      (py : Texts) (u v : String) (now : Time) (worker_id : String)
      (o : Option (String × RolloutJob)) (b : Broker)
      → P b
      → ((k : String) (job : RolloutJob)
          → o ≡ some (k, job)
          → P (issue (lease_for u v now b.lease_ttl worker_id k job) job now b))
      → P (lease_job py u v now worker_id o b).1
  unfolding lease_job
  lease_job_cases py u v now worker_id none b before after = before
  lease_job_cases py u v now worker_id (some (k, job)) b before after =
      let lease = lease_for u v now b.lease_ttl worker_id k job in
      elim (Result-cases (new_rollout_lease py lease)) [
        | inl (made, e) ↦ rw (e, lease_job, new_rollout_lease-ok py lease made e) (after k job refl)
        | inr (x, e) ↦ rw (e, lease_job) before
      ]

  store_group_cases :
      (worker_id lease_id : String) (g : SampleGroup) (d : GroupDecision) (clock : Time)
      (r : LeaseRecord) (b : Broker)
      → P b
      → ((s : StoredGroup)
          → (LiveStore.submit g d clock b.store).0 ≡ ok s
          → P (
              after_submit worker_id lease_id g.group_id clock
                (LiveStore.submit g d clock b.store).1
                r
                b))
      → P (store_group worker_id lease_id g d clock r b).1
  unfolding store_group
  store_group_cases worker_id lease_id g d clock r b before after =
      elim (Result-cases (LiveStore.submit g d clock b.store).0) [
        | inl (s, e) ↦ rw (e, store_group) (after s e)
        | inr (x, e) ↦ rw (e, store_group, submit-raise g d clock b.store x e) before
      ]

  pub acquire_cases :
      (py : Texts) (u v worker_id : String) (now : Option Time) (clock : Time) (b : Broker)
      → P b
      → ((m : WorkerManifest) (k : String) (job : RolloutJob)
          → lookup worker_id b.workers ≡ some m
          → next_job b.leased_job_ids m b.jobs ≡ some (k, job)
          → P (
              issue
                (lease_for u v (get_or now clock) b.lease_ttl worker_id k job)
                job
                (get_or now clock)
                b))
      → P (acquire_lease py u v worker_id now clock b).1
  unfolding acquire_lease
  acquire_cases py u v worker_id now clock b before after =
      elim (Option-cases (lookup worker_id b.workers)) [
        | inl e ↦ rw (e, acquire_lease) before
        | inr (m, e) ↦
            rw (e, acquire_lease)
              (ground (
                arith,
                lease_job_cases py u v (get_or now clock) worker_id
                    (next_job b.leased_job_ids m b.jobs) b before
                    (λ k job found. after m k job e found),
              ))
      ]

  pub submit_cases :
      (worker_id lease_id : String) (g : SampleGroup) (d : GroupDecision) (clock : Time)
      (b : Broker)
      → P b
      → ((r : LeaseRecord) (s : StoredGroup)
          → lookup lease_id b.leases ≡ some r
          → is_issued r.state ≡ true
          → bound_elsewhere (lookup r.lease.idempotency_key b.idempotency_keys) g.group_id ≡ false
          → (LiveStore.submit g d clock b.store).0 ≡ ok s
          → P (
              after_submit worker_id lease_id g.group_id clock
                (LiveStore.submit g d clock b.store).1
                r
                b))
      → P (submit_group worker_id lease_id g d clock b).1
  unfolding submit_group
  submit_cases worker_id lease_id g d clock b before after =
      elim (Option-cases (lookup lease_id b.leases)) [
        | inl e ↦ rw (e, submit_group) (ground arith)
        | inr (r, e) ↦
            rw (e, submit_group)
              (ground (
                arith,
                λ (live : is_issued r.state ≡ true)
                      (free : bound_elsewhere (lookup r.lease.idempotency_key b.idempotency_keys)
                          g.group_id
                        ≡ false).
                    store_group_cases worker_id lease_id g d clock r b before
                      (λ s stored. after r s e live free stored),
              ))
      ]

  pub failure_cases :
      (worker_id lease_id reason : String) (detail : Option String) (clock : Time) (b : Broker)
      → P b
      → ((r : LeaseRecord)
          → lookup lease_id b.leases ≡ some r
          → is_issued r.state ≡ true
          → P (after_failure worker_id lease_id reason detail clock r b))
      → P (report_failure worker_id lease_id reason detail clock b).1
  unfolding report_failure
  failure_cases worker_id lease_id reason detail clock b before after =
      elim (Option-cases (lookup lease_id b.leases)) [
        | inl e ↦ rw (e, report_failure) (ground arith)
        | inr (r, e) ↦ rw (e, report_failure) (ground (arith, after r e))
      ]

  module _ (py : Texts)
      (step : (now age : Time) (worker_id : String) (b : Broker)
        → P b
        → P (abandon_worker py now age worker_id b).1) where
    abandon_check_keeps :
        (now : Time) (worker_id : String) (beat : Option WorkerHeartbeat)
        (done : Dict (List String)) (b : Broker)
        → P b
        → P (abandon_check py now worker_id beat done b).1
    unfolding abandon_check
    abandon_check_keeps now worker_id none done b h = h
    abandon_check_keeps now worker_id (some beat) done b h =
        ground (arith, step now (now - beat.last_seen_at) worker_id b h)

    abandon_loop_keeps :
        (now : Time) (workers : Dict WorkerManifest) (done : Dict (List String)) (b : Broker)
        → P b
        → P (abandon_loop py now workers done b).1
    unfolding abandon_loop
    abandon_loop_keeps now [] done b h = h
    abandon_loop_keeps now (w ∷ workers) done b h =
        abandon_loop_keeps now workers _ _
          (abandon_check_keeps now w.0 (lookup w.0 b.heartbeats) done b h)

    pub abandon_cases :
        (now : Option Time) (clock : Time) (b : Broker)
        → P b
        → P (abandon_stale_workers py now clock b).1
    unfolding abandon_stale_workers
    abandon_cases now clock b h = abandon_loop_keeps (get_or now clock) b.workers [] b h
